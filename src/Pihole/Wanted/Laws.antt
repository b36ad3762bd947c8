-- ===== src/Pihole/Wanted/Laws.antt =====
-- What `netbox_wanted` promises of the zones and the records that it returns.
use mathlib.Core.Path.{subst}
use k8s_homelab.Prelude.{
  sym, ℕ, ◌≡◌, refl, ◌∙◌, ◌++◌, List, [], ◌∷◌, Bool, true, >>=-eq-some, if-eq-some, Option, none,
  some, Option-cases, Bool-cases, inl, inr, all, ◌==◌, contains,
}
use k8s_homelab.Prelude.{
  nat_eq, arith, contains-add, list_eq, pair_eq, string_eq, option_eq, ==_eq, ==_of_eq,
  all-contains, all_of_contains,
}
use k8s_homelab.Prelude.Text.{Text, lower, rstrip, lower_idem, lower-append, ends_with-append}
use k8s_homelab.Prelude.Sort.{sorted, contains-sorted}
use k8s_homelab.Prelude.Dict
use k8s_homelab.Prelude.Dict.{Dict}
use k8s_homelab.Pihole.Plan.{Entry, in_zone}
use k8s_homelab.Pihole.Keep.{IsLowered}
use k8s_homelab.Pihole.Wanted.{
  ZoneRow, RecordRow, Answer, every, zone_counts, zone_names, is_wanted_kind, find_zone, add_some,
  is_nil, record_name, record_entry, wanted_from, wanted_in,
}
use k8s_homelab.Pihole.Wanted.{netbox_wanted}

abbrev is_lowered : Text → Bool
is_lowered z = lower z == z

values-insert_lowered :
    (i : ℕ) (z : Text) (d : Dict ℕ Text)
    → is_lowered z ≡ true
    → all is_lowered (Dict.values d) ≡ true
    → all is_lowered (Dict.values (Dict.insert i z d)) ≡ true
unfolding Dict.values Dict.insert
values-insert_lowered i z [] hz hd = ground arith
values-insert_lowered i z ((j, w) ∷ d) hz hd = ground (arith, values-insert_lowered i z d hz)

zone_names_lowered :
    (rows : List ZoneRow) (d : Dict ℕ Text)
    → all is_lowered (Dict.values d) ≡ true
    → all is_lowered (Dict.values (zone_names rows d)) ≡ true
unfolding zone_names
zone_names_lowered [] d h = h
zone_names_lowered (r ∷ rows) d h = elim (Bool-cases (zone_counts r)) [
  | inl e ↦ rw e (
      zone_names_lowered rows _
        (values-insert_lowered r.id _ d (==_of_eq _ _ (lower_idem (rstrip b'.' r.name))) h))
  | inr e ↦ rw e (zone_names_lowered rows d h)
]

lookup-value :
    (i : ℕ) (z : Text) (d : Dict ℕ Text)
    → Dict.lookup i d ≡ some z
    → contains (Dict.values d) z ≡ true
unfolding Dict.lookup Dict.values
lookup-value i z [] h = cc
lookup-value i z ((j, w) ∷ d) h = ground (arith, lookup-value i z d)

in_zone_self : (zs : List Text) (z : Text) → contains zs z ≡ true → in_zone z zs ≡ true
unfolding in_zone
in_zone_self [] z h = cc
in_zone_self (y ∷ zs) z h = ground (arith, in_zone_self zs z)

in_zone-under :
    (zs : List Text) (z n : Text) → contains zs z ≡ true → in_zone (n ++ b'.' ∷ z) zs ≡ true
unfolding in_zone
in_zone-under [] z n h = cc
in_zone-under (y ∷ zs) z n h = ground (arith, in_zone-under zs z n, ends_with-append n (b'.' ∷ z))

-- What `wanted` promises of each record: a lower-case name in a zone, and one of the three types.
pub record IsNamed (zones : List Text) (w : Entry) : Type 0 where
  pub named : in_zone w.0 zones ≡ true
  pub lowered : lower w.0 ≡ w.0
  pub kind : is_wanted_kind (some w.1.0) ≡ true

lower_dot : (s : Text) → lower (b'.' ∷ s) ≡ b'.' ∷ lower s
unfolding lower
lower_dot s = refl

record_name-lowered :
    (name zone : Text) → lower zone ≡ zone → lower (record_name name zone) ≡ record_name name zone
unfolding record_name
record_name-lowered name zone h = ground (
  arith,
  lower-append (lower (rstrip b'.' name)) (b'.' ∷ zone),
  lower_dot zone,
  lower_idem (rstrip b'.' name),
)

record_name-in_zone :
    (name zone : Text) (zs : List Text)
    → contains zs zone ≡ true
    → in_zone (record_name name zone) zs ≡ true
unfolding record_name
record_name-in_zone name zone zs m =
    ground (arith, in_zone_self zs zone m, in_zone-under zs zone (lower (rstrip b'.' name)) m)

module _ (zones : Dict ℕ Text) (zs : List Text) (low : all is_lowered (Dict.values zones) ≡ true)
    (same : (z : Text) → contains zs z ≡ contains (Dict.values zones) z) where
  found-lowered :
      (o : Option ℕ) (z : Text)
      → find_zone o zones ≡ some z
      → (contains zs z ≡ true) × (lower z ≡ z)
  found-lowered none z h = absurd (cc)
  found-lowered (some i) z h =
      let m = lookup-value i z zones h in
      (same z ∙ m, ==_eq (lower z) z (all-contains is_lowered (Dict.values zones) z low m))

  record_entry-IsNamed : (r : RecordRow) (w : Entry) → record_entry zones r ≡ some w → IsNamed zs w
  unfolding record_entry
  record_entry-IsNamed r w h = elim (Option-cases (find_zone r.zone zones)) [
    | inl e ↦ absurd (ground arith)
    | inr (z, e) ↦ elim (Option-cases r.kind) [
      | inl k ↦ absurd (ground arith)
      | inr (kind, k) ↦
          let (m, lz) = found-lowered r.zone z e in
          let named = record_name-in_zone r.name z zs m in
          let lowered = record_name-lowered r.name z lz in
          record { named = ground arith; lowered = ground arith; kind = ground arith }
    ]
  ]

  add_some-IsNamed :
      (r : RecordRow) (o : Option Entry) (wanted : List Entry)
      → record_entry zones r ≡ o
      → ((w : Entry) → contains wanted w ≡ true → IsNamed zs w)
      → (w : Entry) → contains (add_some o wanted) w ≡ true
      → IsNamed zs w
  add_some-IsNamed r none wanted e h w m = h w m
  add_some-IsNamed r (some v) wanted e h w m = elim (Bool-cases (w == v)) [
    | inl same ↦ subst (IsNamed zs) (sym (==_eq {A = Entry} w v same)) (record_entry-IsNamed r v e)
    | inr other ↦ h w (ground (arith, contains-add v wanted w))
  ]

  wanted_from-IsNamed :
      (rows : List RecordRow) (wanted : List Entry)
      → ((w : Entry) → contains wanted w ≡ true → IsNamed zs w)
      → (w : Entry) → contains (wanted_from zones rows wanted) w ≡ true
      → IsNamed zs w
  unfolding wanted_from
  wanted_from-IsNamed [] wanted h w m = h w m
  wanted_from-IsNamed (r ∷ rows) wanted h w m =
      wanted_from-IsNamed rows (add_some (record_entry zones r) wanted)
        (add_some-IsNamed r (record_entry zones r) wanted refl h) w m

wanted_in-IsNamed :
    (found : Dict ℕ Text) (rows : List RecordRow) (zones : List Text) (wanted : List Entry)
    → all is_lowered (Dict.values found) ≡ true
    → wanted_in found rows ≡ some (zones, wanted)
    → (w : Entry) → contains wanted w ≡ true
    → IsLowered zones × IsNamed zones w
unfolding wanted_in
wanted_in-IsNamed found rows zones wanted low h w m =
    let (e, h') = if-eq-some (is_nil (wanted_from found rows [])) _ h in
    let same = λ (z : Text). contains-sorted (Dict.values found) z in
    let zs : sorted (Dict.values found) ≡ zones = ground arith in
    let ws : wanted_from found rows [] ≡ wanted = ground arith in
    (
      rw (← zs) (
          all_of_contains is_lowered (sorted (Dict.values found))
            λ z k. all-contains is_lowered (Dict.values found) z low (sym (same z) ∙ k)),
      subst (λ z. IsNamed z w) zs
          (wanted_from-IsNamed found (sorted (Dict.values found)) low same rows []
            (λ v k. absurd (cc)) w (subst (λ x. contains x w ≡ true) (sym ws) m)),
    )

module _ (zone_call : Text → Option (Answer ZoneRow))
    (record_call : Text → Option (Answer RecordRow)) (zones_url records_url : Text) where
  -- What a successful read of NetBox returns: zones in lower case, and each record under a
  -- lower-case name in one of them, with one of the three types.
  pub netbox_wanted-IsNamed :
      (fuel : ℕ) (zones : List Text) (wanted : List Entry)
      → netbox_wanted zone_call record_call zones_url records_url fuel ≡ some (zones, wanted)
      → (w : Entry) → contains wanted w ≡ true
      → IsLowered zones × IsNamed zones w
  unfolding netbox_wanted Dict.values
  netbox_wanted-IsNamed fuel zones wanted h w m =
      let (zone_rows, _, h₁) = >>=-eq-some (every zone_call fuel (some zones_url) []) _ h in
      let found = zone_names zone_rows [] in
      let (_, h₂) = if-eq-some (is_nil found) _ h₁ in
      let (rows, _, h₃) = >>=-eq-some (every record_call fuel (some records_url) []) _ h₂ in
      wanted_in-IsNamed found rows zones wanted (zone_names_lowered zone_rows [] refl) h₃ w m
