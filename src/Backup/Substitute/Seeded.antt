-- ===== src/Backup/Substitute/Seeded.antt =====
-- The new entries of varsub.py's auto_seed_candidates, against those there are.
use k8s_homelab.Prelude.{
  refl, inr, [], inl, nat_eq, arith, list_eq, Bool-cases, true, some, false, not, ◌||◌, contains,
  all, map, are_distinct, ◌≡◌, ◌∷◌, Bool, List,
}
use k8s_homelab.Prelude.Text.{Text}
use k8s_homelab.Backup.Substitute.Fresh.{next_placeholder_free}
use k8s_homelab.Backup.Substitute.Seeds.{
  candidates_of, new_entry, auto_seed_candidates, new_entries, Candidate,
}
use k8s_homelab.Json.{Fields}
use k8s_homelab.Backup.Substitute.Entries.{Entry}

abbrev pub literals_of : List Entry → List Text
literals_of es = map (λ e. e.substitution.literal) es

abbrev pub placeholders_of : List Entry → List Text
placeholders_of es = map (λ e. e.substitution.placeholder) es

-- None of some texts is among those taken.
abbrev pub are_free : List Text → List Text → Bool
are_free taken ts = all (λ t. not (contains taken t)) ts

abbrev pub are_held : List Text → List Text → List Candidate → Bool
are_held literals new cs = all (λ c. contains literals c.literal || contains new c.literal) cs

are_free_cons :
    (t : Text) (taken ts : List Text)
    → are_free (t ∷ taken) ts ≡ true
    → (contains ts t ≡ false) × (are_free taken ts ≡ true)
are_free_cons t taken [] h = (refl, refl)
are_free_cons t taken (x ∷ xs) h = ground (arith, are_free_cons t taken xs)

are_held_moved :
    (t : Text) (literals new : List Text) (cs : List Candidate)
    → are_held (t ∷ literals) new cs ≡ true
    → are_held literals (t ∷ new) cs ≡ true
are_held_moved t literals new [] h = refl
are_held_moved t literals new (c ∷ cs) h = ground (arith, are_held_moved t literals new cs)

-- What the new entries are to satisfy.
abbrev pub AreSeeded : List Candidate → List Text → List Text → List Entry → Type 0
AreSeeded cs literals taken es =
    ((are_distinct (placeholders_of es) ≡ true) × (are_free taken (placeholders_of es) ≡ true))
    × ((are_distinct (literals_of es) ≡ true) × (are_free literals (literals_of es) ≡ true))
    × (are_held literals (literals_of es) cs ≡ true)

new_entry-AreSeeded :
    (c : Candidate) (p : Text) (cs : List Candidate) (literals taken : List Text) (es : List Entry)
    → contains literals c.literal ≡ false
    → contains taken p ≡ false
    → AreSeeded cs (c.literal ∷ literals) (p ∷ taken) es
    → AreSeeded (c ∷ cs) literals taken (new_entry c p ∷ es)
new_entry-AreSeeded c p cs literals taken es l t ((a, b), (d, f), g) =
    let (b1, b2) = are_free_cons p taken (placeholders_of es) b in
    let (f1, f2) = are_free_cons c.literal literals (literals_of es) f in
    let held = are_held_moved c.literal literals (literals_of es) cs g in
    ((ground arith, ground arith), (ground arith, ground arith), ground arith)

new_entries-AreSeeded :
    (cs : List Candidate) (literals taken : List Text)
    → (es : List Entry) × (new_entries cs literals taken ≡ some es) × AreSeeded cs literals taken es
unfolding new_entries
new_entries-AreSeeded [] literals taken = ([], refl, ((refl, refl), (refl, refl), refl))
new_entries-AreSeeded (c ∷ cs) literals taken = elim (Bool-cases (contains literals c.literal)) [
  | inl h ↦
      let (es, e, (a, d, g)) = new_entries-AreSeeded cs literals taken in
      (es, rw (h, new_entries) e, (a, d, ground arith))
  | inr h ↦
      let (p, f, t) = next_placeholder_free c.base taken in
      let (es, e, s) = new_entries-AreSeeded cs (c.literal ∷ literals) (p ∷ taken) in
      (
        new_entry c p ∷ es,
        rw (h, new_entries, f, e) refl,
        new_entry-AreSeeded c p cs literals taken es h t s,
      )
]

-- Of any objects and any known entries, auto_seed_candidates returns new entries: their placeholders
-- are distinct and none is the placeholder of a known entry, their literals are distinct and none is
-- the literal of a known entry, and each candidate's literal is that of a known or of a new entry.
pub auto_seed_candidates-AreSeeded :
    (is_ipv6 : Text → Bool) (issuers pvs ings : List Fields) (known : List Entry)
    → (es : List Entry) × (auto_seed_candidates is_ipv6 issuers pvs ings known ≡ some es)
      × AreSeeded
          (candidates_of is_ipv6 issuers pvs ings)
          (literals_of known)
          (placeholders_of known)
          es
unfolding auto_seed_candidates
auto_seed_candidates-AreSeeded is_ipv6 issuers pvs ings known =
    new_entries-AreSeeded (candidates_of is_ipv6 issuers pvs ings) (literals_of known)
      (placeholders_of known)
