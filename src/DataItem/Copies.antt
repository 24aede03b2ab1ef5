-- ===== src/DataItem/Copies.antt =====
-- include/dataitem.h: what a copy of a limit keeps.
use npu_oj.Base.{◌≡◌, refl, arith}
use npu_oj.Units.Memory.{unset_size}
use npu_oj.DataItem.{ResourceLimit, copy_limit, assign_limit}

-- Assignment copies the whole limit; the copy constructor, and with it a copied problem, copies
-- all of it but the file limit, which it leaves unset.
pub assign-copy :
    (this rl : ResourceLimit)
    → (assign_limit this rl ≡ rl)
      × (record (copy_limit rl) { file_limit = rl.file_limit } ≡ rl)
      × ((copy_limit rl).file_limit ≡ unset_size)
unfolding assign_limit copy_limit
assign-copy this rl = (ground arith, refl, refl)
