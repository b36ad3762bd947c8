-- ===== src/Webhook/Zones/Names.antt =====
-- A name splits into its zone and the part before it, and reads back from the two.
use mathlib.Core.Path.{subst}
use mathlib.Core.Bool.{true≢false}
use native.Mathlib.Decide.{ℕ_discrete}
use k8s_homelab.Prelude.{
  ==_refl, ℕ, zero, suc, ◌+◌, ◌-◌, ◌≤◌, ◌≡◌, refl, ◌∙◌, [], ◌∷◌, ◌++◌, true, false, none, some,
  ◌==◌, ==_eq, length, arith, ap, sym, list_eq, nat_eq, Bool-cases,
}
use k8s_homelab.Prelude.{inl, inr}
use k8s_homelab.Prelude.Text.{
  Text, lower, lower_char, lower_idem, lower-append, rstrip, ends_with, codes, lacks,
}
use k8s_homelab.Prelude.Dict
use k8s_homelab.Prelude.Dict.{Dict}
use k8s_homelab.Webhook.Zones.{
  Zone, ZoneRef, Record, normal, is_under, take, relative, in_its_zone, fqdn_of,
}

length-ends_with : (s t : Text) → ends_with s t ≡ true → length t ≤ length s
unfolding ends_with
length-ends_with [] t h = rw (==_eq t [] h) (omega arith)
length-ends_with (c ∷ s) t h = elim (Bool-cases ((c ∷ s) == t)) [
  | inl e ↦ rw (← ==_eq (c ∷ s) t e) (omega arith)
  | inr e ↦ omega (arith, length-ends_with s t (ground arith))
]

take-ends_with : (s t : Text) → ends_with s t ≡ true → take (length s - length t) s ++ t ≡ s
unfolding ends_with
take-ends_with [] t h = rw (==_eq t [] h)
take-ends_with (c ∷ s) t h = elim (Bool-cases ((c ∷ s) == t)) [
  | inl e ↦
      let n : length (c ∷ s) - length t ≡ 0 = rw (← ==_eq (c ∷ s) t e) (omega arith) in
      rw n (sym (==_eq (c ∷ s) t e))
  | inr e ↦
      let le = length-ends_with s t (ground arith) in
      let n : length (c ∷ s) - length t ≡ suc (length s - length t) = omega arith in
      rw n (ap (λ r. c ∷ r) (take-ends_with s t (ground arith)))
]

lower-take : (n : ℕ) (s : Text) → lower (take n s) ≡ take n (lower s)
unfolding lower
lower-take zero s = refl
lower-take (suc n) [] = refl
lower-take (suc n) (c ∷ s) = ap (λ r. lower_char c ∷ r) (lower-take n s)

take-lacks : (d n : ℕ) (s : Text) → lacks d s ≡ true → lacks d (take n s) ≡ true
take-lacks d zero s h = refl
take-lacks d (suc n) [] h = refl
take-lacks d (suc n) (c ∷ s) h = ground (arith, take-lacks d n s)

lacks-at : lacks b'@' (codes "@") ≡ false
unfolding nat_eq ℕ_discrete
lacks-at = refl

not_at : (s : Text) → lacks b'@' s ≡ true → (s == codes "@") ≡ false
not_at s h = elim (Bool-cases (s == codes "@")) [
  | inl e ↦
      let k = subst (λ t. lacks b'@' t ≡ true) (==_eq s (codes "@") e) h in
      absurd (true≢false (sym k ∙ lacks-at))
  | inr e ↦ e
]

lower_dot : (s : Text) → lower (b'.' ∷ s) ≡ b'.' ∷ lower s
unfolding lower
lower_dot s = refl

lower-normal : (s : Text) → lower (normal s) ≡ normal s
unfolding normal
lower-normal s = lower_idem (rstrip b'.' s)

-- The name before a zone's, followed by the zone's.
joined :
    (f z : Text)
    → ends_with f (b'.' ∷ z) ≡ true
    → take (length f - (length z + 1)) f ++ b'.' ∷ z ≡ f
joined f z h =
    let n : length z + 1 ≡ length (b'.' ∷ z) = omega arith in rw n (take-ends_with f (b'.' ∷ z) h)

in_its_zone_at : (z : Text) → in_its_zone (codes "@") z ≡ z
in_its_zone_at z = ground (arith, ==_refl (codes "@"))

-- The part before the zone's name, put before it again.
in_its_zone-relative :
    (fqdn name : Text)
    → is_under (normal fqdn) (normal name) ≡ true
    → lacks b'@' (normal fqdn) ≡ true
    → lower (in_its_zone (relative fqdn name) (rstrip b'.' name)) ≡ normal fqdn
unfolding is_under relative
in_its_zone-relative fqdn name h at = elim (Bool-cases (normal fqdn == normal name)) [
  | inl e ↦
      rw (e, in_its_zone_at (rstrip b'.' name))
        (unfold normal in sym (==_eq (normal fqdn) (normal name) e))
  | inr e ↦
      let t = take (length (normal fqdn) - (length (normal name) + 1)) (normal fqdn) in
      rw
        (
          e,
          not_at t (
              take-lacks b'@' (length (normal fqdn) - (length (normal name) + 1)) (normal fqdn) at),
          lower-append t (b'.' ∷ rstrip b'.' name),
          lower_dot (rstrip b'.' name),
          lower-take (length (normal fqdn) - (length (normal name) + 1)) (normal fqdn),
          lower-normal fqdn,
        )
        (unfold normal in joined (normal fqdn) (normal name) (ground arith))
]

-- A record written under its relative name in a zone of NetBox is read back by its full name.
fqdn_of-relative :
    (fqdn : Text) (z : Zone) (r : Record) (ref : ZoneRef) (zones_by_id : Dict ℕ Zone)
    → is_under (normal fqdn) (normal z.name) ≡ true
    → lacks b'@' (normal fqdn) ≡ true
    → r.fqdn ≡ none
    → r.zone ≡ some ref
    → ref.id ≡ some z.id
    → Dict.lookup z.id zones_by_id ≡ some z
    → r.name ≡ relative fqdn z.name
    → lower (fqdn_of r zones_by_id) ≡ normal fqdn
unfolding fqdn_of
fqdn_of-relative fqdn z r ref zones_by_id h at f e i l n =
    rw (f, e, i, l, n) (in_its_zone-relative fqdn z.name h at)
