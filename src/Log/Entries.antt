-- ===== src/Log/Entries.antt =====
-- src/debug.cpp: the log as a sequence of entries.
use npu_oj.Base.{
  ◌≡◌, refl, sym, ap, subst, ◌∙◌, ◌⊎◌, inl, inr, Option, none, some, List, [], ◌∷◌, ◌++◌,
  append_assoc, append-nil,
}
use npu_oj.Base.Text.{Text}
use npu_oj.Log.{Call, pieces, Writer, LogFile, Step, locks, writes, unlocks, Reach, start, later}

abbrev pub concat : List Text → Text
concat [] = []
concat (t ∷ ts) = t ++ concat ts

-- What one call writes.
abbrev pub entry : Call → Text
entry c = concat (pieces c)

-- The log as its reader is promised it: entries, of which a call adds one at its end.
abbrev pub log_of : Text → List Call → Text
log_of old [] = old
log_of old (c ∷ cs) = log_of old cs ++ entry c

-- What of the last entry is written: nothing while nobody has the lock.
abbrev PartOf : Option Writer → Text → Type 0
PartOf none part = part ≡ []
PartOf (some w) part = part ++ concat w.rest ≡ entry w.call

-- A state stands for the calls that are through, the latest first.
pub record Represents (old : Text) (calls : List Call) (f : LogFile) : Type 0 where
  pub part : Text
  pub whole : f.text ≡ log_of old calls ++ part
  pub begun : PartOf f.writer part

Step-Represents :
    {old : Text} {calls : List Call} {f g : LogFile}
    → Step f g
    → Represents old calls f
    → Represents old calls g ⊎ ((c : Call) × Represents old (c ∷ calls) g)
Step-Represents {old} {calls} {f} (locks thread call free) r =
    let nothing : r.part ≡ [] = subst (λ o. PartOf o r.part) free r.begun in
    inl (record {
      part = [];
      whole = r.whole ∙ ap (λ p. log_of old calls ++ p) nothing;
      begun = refl;
    })
Step-Represents {old} {calls} {f} (writes w piece more held left) r =
    let now : r.part ++ concat w.rest ≡ entry w.call = subst (λ o. PartOf o r.part) held r.begun in
    inl (record {
      part = r.part ++ piece;
      whole = ap (λ t. t ++ piece) r.whole ∙ append_assoc (log_of old calls) r.part piece;
      begun =
          append_assoc r.part piece (concat more) ∙ ap (λ ts. r.part ++ concat ts) (sym left) ∙ now;
    })
Step-Represents {old} {calls} {f} (unlocks w held nothing_left) r =
    let now : r.part ++ concat w.rest ≡ entry w.call = subst (λ o. PartOf o r.part) held r.begun in
    let done : r.part ≡ entry w.call =
      sym (append-nil r.part) ∙ ap (λ ts. r.part ++ concat ts) (sym nothing_left) ∙ now in
    inr (
      w.call,
      record {
        part = [];
        whole =
            r.whole
            ∙ ap (λ p. log_of old calls ++ p) done
            ∙ sym (append-nil (log_of old calls ++ entry w.call));
        begun = refl;
      },
    )

Reach-Represents :
    {old : Text} {f : LogFile} → Reach old f → (calls : List Call) × Represents old calls f
Reach-Represents {old} start =
    ([], record { part = []; whole = sym (append-nil old); begun = refl })
Reach-Represents (later r st) =
    let (calls, before) = Reach-Represents r in
    elim (Step-Represents st before) [
      | inl same ↦ (calls, same)
      | inr (c, more) ↦ (c ∷ calls, more)
    ]

-- The entries of the log are whole: however threads interleave, the file stands for what it held at
-- first followed by the entries of some calls, one after the other, and a beginning of one more
-- entry; when nobody has the lock there is no such beginning.
pub log_refines :
    (old : Text) (f : LogFile)
    → Reach old f
    → (calls : List Call) × Represents old calls f × (f.writer ≡ none → f.text ≡ log_of old calls)
log_refines old f r =
    let (calls, refines) = Reach-Represents r in
    (
      calls,
      refines,
      λ free.
          let nothing : refines.part ≡ [] = subst (λ o. PartOf o refines.part) free refines.begun in
          refines.whole ∙ ap (λ p. log_of old calls ++ p) nothing ∙ append-nil (log_of old calls),
    )
