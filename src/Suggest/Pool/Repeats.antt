-- ===== src/Suggest/Pool/Repeats.antt =====
-- A record that is read twice counts once (`guard` of stellar/src/suggest/suggest.ts).
use mathlib.Core.List.{append-nil}
use mathlib.Core.Path.{subst}
use text.Mathlib.Text.{◌==◌ as str_eq}
use stellar_voice_control_pr.Common.{
  ◌≡◌, refl, sym, ap, ◌∙◌, true, false, Bool-cases, inl, inr, List, [], ◌∷◌, ◌++◌, String, arith,
  eq_iff, if◌then◌else◌,
}
use stellar_voice_control_pr.Guard.{includes}
use stellar_voice_control_pr.Suggest.Pool.{HistoryRecord, SuggestContext, Resolved, dedupe, guard}

-- The ids seen after a part of the history.
seen_after : List String → List HistoryRecord → List String
unfolding includes
seen_after seen [] = seen
seen_after seen (r ∷ rs) =
    let rest = seen_after (r.id ∷ seen) rs in
    if includes seen r.id then seen_after seen rs else rest

dedupe-append :
    (seen : List String) (h t : List HistoryRecord)
    → dedupe seen (h ++ t) ≡ dedupe seen h ++ dedupe (seen_after seen h) t
unfolding dedupe seen_after
dedupe-append seen [] t = refl
dedupe-append seen (r ∷ rs) t = elim (Bool-cases (includes seen r.id)) [
  | inl there ↦ rw there (dedupe-append seen rs t)
  | inr new ↦ rw new (ap (λ l. r ∷ l) (dedupe-append (r.id ∷ seen) rs t))
]

seen_after-keeps :
    (seen : List String) (h : List HistoryRecord) (a : String)
    → includes seen a ≡ true
    → includes (seen_after seen h) a ≡ true
unfolding seen_after includes
seen_after-keeps seen [] a m = m
seen_after-keeps seen (r ∷ rs) a m = elim (Bool-cases (includes seen r.id)) [
  | inl there ↦ rw there (seen_after-keeps seen rs a m)
  | inr new ↦ rw new (seen_after-keeps (r.id ∷ seen) rs a (ground arith))
]

abbrev AllSeen : List String → List HistoryRecord → Type 0
AllSeen seen [] = Unit
AllSeen seen (r ∷ rs) = (includes seen r.id ≡ true) × AllSeen seen rs

seen_after-there :
    (seen : List String) (r : HistoryRecord) (rs : List HistoryRecord)
    → includes seen r.id ≡ true
    → seen_after seen (r ∷ rs) ≡ seen_after seen rs
unfolding seen_after
seen_after-there seen r rs there = rw there refl

seen_after-new :
    (seen : List String) (r : HistoryRecord) (rs : List HistoryRecord)
    → includes seen r.id ≡ false
    → seen_after seen (r ∷ rs) ≡ seen_after (r.id ∷ seen) rs
unfolding seen_after
seen_after-new seen r rs new = rw new refl

seen_after-AllSeen : (seen : List String) (h : List HistoryRecord) → AllSeen (seen_after seen h) h
unfolding includes
seen_after-AllSeen seen [] = tt
seen_after-AllSeen seen (r ∷ rs) = elim (Bool-cases (includes seen r.id)) [
  | inl there ↦
      subst (λ s. AllSeen s (r ∷ rs)) (sym (seen_after-there seen r rs there))
        (seen_after-keeps seen rs r.id there, seen_after-AllSeen seen rs)
  | inr new ↦
      let same : str_eq r.id r.id ≡ true = (eq_iff r.id r.id).1 refl in
      subst (λ s. AllSeen s (r ∷ rs)) (sym (seen_after-new seen r rs new))
        (seen_after-keeps (r.id ∷ seen) rs r.id (ground arith), seen_after-AllSeen (r.id ∷ seen) rs)
]

dedupe_seen : (seen : List String) (t : List HistoryRecord) → AllSeen seen t → dedupe seen t ≡ []
unfolding dedupe
dedupe_seen seen [] all = refl
dedupe_seen seen (r ∷ rs) all = rw all.0 (dedupe_seen seen rs all.1)

dedupe_twice : (h : List HistoryRecord) → dedupe [] (h ++ h) ≡ dedupe [] h
dedupe_twice h =
    dedupe-append [] h h
    ∙ ap (λ l. dedupe [] h ++ l) (dedupe_seen (seen_after [] h) h (seen_after-AllSeen [] h))
    ∙ append-nil (dedupe [] h)

-- A history that is read twice, as by merging two readers of the same chain, gives the same records,
-- count, span and decision as read once.
pub guard_reads_once :
    (history : List HistoryRecord) (context : SuggestContext) (resolved : Resolved)
    → guard (history ++ history) context resolved ≡ guard history context resolved
unfolding guard
guard_reads_once history context resolved = rw (dedupe_twice history) refl
