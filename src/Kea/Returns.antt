-- ===== src/Kea/Returns.antt =====
-- When main returns: every network that a site writes is read back, and every subnet that a lease is
-- found in has an id.
use mathlib.Core.Path.{subst}
use k8s_homelab.Prelude.{
  is_none, sym, Returns-eq-some, ◌≢◌, ◌∙◌, ap, nat_eq, ltb, Returns-imp, refl, ◌&&◌, [], if_keeps,
  Bool-cases, inr, ◌∷◌, arith, all, none, All, inl, Option-cases,
}
use k8s_homelab.Prelude.{
  false, ◌==◌, map, some, Returns, not, true, any, ◌≡◌, ◌||◌, ℕ, Bool, Option, List,
}
use k8s_homelab.Prelude.Sort.{any-sorted_by, sorted_by}
use k8s_homelab.Prelude.Dict.{All-AllEntries, lookup-insert, insert, lookup, AllEntries, Dict}
use k8s_homelab.Prelude.Sorted.{All-sorted_by}
use k8s_homelab.Prelude.Decimal.{read_decimal}
use k8s_homelab.Prelude.Text.{words, Text}
use k8s_homelab.Ipv4.Networks.{read_strict-network_text}
use k8s_homelab.Ipv4.{read_strict, network_text, lies_in, Network, network_eq}
use k8s_homelab.Kea.Entries.{site-entries, texts_of}
use k8s_homelab.Kea.Resolved.{convert-IsKnown}
use k8s_homelab.Kea.Site.{by_network, site, SiteData, Entry}
use k8s_homelab.Kea.Main.{
  convert, no_leases, main, leases, read_lease, import_read, import_line, read_leases, lease_line,
  Tally, LeaseLine, import_lease, ids_from,
}
use k8s_homelab.Kea.Values.{is_mac}
use k8s_homelab.Kea.Known.{kept_network, IsKept}
use k8s_homelab.Kea.{subnet_containing, Subnet, Converter, containing}

abbrev has : Network → List (Network × Subnet) → Bool
has net subnets = any (λ p. p.0 == net) subnets

abbrev holds_id : Network → Dict Network ℕ → Bool
holds_id net ids = not (is_none (lookup net ids))

-- The ids are read, and every network has one.
abbrev Covers : List (Network × Subnet) → Dict Network ℕ → Dict Network ℕ → Type 0
Covers subnets before ids =
    (net : Network) → (has net subnets || holds_id net before) ≡ true → holds_id net ids ≡ true

ids_from-Covers :
    (subnets : List (Network × Subnet)) (found : List Entry) (before : Dict Network ℕ)
    → map (λ e. e.subnet) found ≡ texts_of subnets
    → All (λ p. IsKept p.0 p.1) subnets
    → (ids : Dict Network ℕ) × (ids_from found before ≡ some ids) × Covers subnets before ids
unfolding ids_from
ids_from-Covers [] [] before e h = (before, refl, λ net k. k)
ids_from-Covers [] (entry ∷ found) before e h = absurd (cc)
ids_from-Covers (p ∷ subnets) [] before e h = absurd (cc)
ids_from-Covers ((given, sub) ∷ subnets) (entry ∷ found) before e (kept, h) =
    let w = kept_network given sub kept in
    let same : entry.subnet ≡ network_text given = cc in
    let read : read_strict entry.subnet ≡ some given =
      ap read_strict same ∙ read_strict-network_text given w in
    let (ids, f, covers) = ids_from-Covers subnets found (insert given entry.id before) (cc) h in
    (ids, rw read f, λ net k. covers net (ground (arith, lookup-insert given net entry.id before)))

containing-has :
    (ip : ℕ) (known : Dict Network Subnet)
    → AllEntries IsKept known
    → Returns (λ sub. has sub.network known ≡ true) (containing ip known)
unfolding containing IsKept
containing-has ip [] h = tt
containing-has ip ((net, sub) ∷ later) ((own, w, within), h) = elim (Bool-cases (lies_in ip net)) [
  | inl e ↦ rw e (ground (arith, own))
  | inr e ↦
      rw e (Returns-imp _ _ (containing ip later) (containing-has ip later h) (λ s k. ground arith))
]

-- A line that is no lease's, or whose expiry is a number.
abbrev has_expiry : Option LeaseLine → Bool
has_expiry none = true
has_expiry (some l) = not (is_none (read_decimal l.expiry))

unfoldable pub is_readable : Text → Bool
is_readable raw = has_expiry (lease_line (words raw))

abbrev Succeeds {ℓ} : {A : Type ℓ} → Option A → Type 0
Succeeds o = is_none o ≡ false

import_lease-Succeeds :
    (ids : Dict Network ℕ) (l : LeaseLine) (expiry : ℕ) (held : Option Subnet) (t : Tally)
    → Returns (λ sub. holds_id sub.network ids ≡ true) held
    → Succeeds (import_lease ids l expiry held t)
unfolding import_lease
import_lease-Succeeds ids l expiry none t h = refl
import_lease-Succeeds ids l expiry (some sub) t h = elim (Option-cases (lookup sub.network ids)) [
  | inl e ↦ absurd (ground (arith, e))
  | inr (id, e) ↦ rw e (if_keeps Succeeds (is_mac l.mac) _ _ refl refl)
]

module _ (c : Converter) (now : ℕ) (ids : Dict Network ℕ)
    (held : (ip : ℕ)
      → Returns (λ sub. holds_id sub.network ids ≡ true) (subnet_containing ip c)) where
  import_read-Succeeds :
      (line : Option LeaseLine) (t : Tally)
      → has_expiry line ≡ true
      → Succeeds (import_read c now ids line t)
  unfolding import_line
  import_read-Succeeds none t h = refl
  import_read-Succeeds (some l) t h = elim (Option-cases (read_decimal l.expiry)) [
    | inl e ↦ absurd (ground (arith, e))
    | inr (expiry, e) ↦ rw e (
        if_keeps Succeeds (not (expiry == 0) && ltb expiry now) _ _ refl
          (import_lease-Succeeds ids l expiry (subnet_containing l.ip c) t (held l.ip)))
  ]

  read_leases-Succeeds :
      (lines : List Text) (t : Tally)
      → all is_readable lines ≡ true
      → Succeeds (read_leases c now ids lines t)
  unfolding read_leases read_lease is_readable
  read_leases-Succeeds [] t h = refl
  read_leases-Succeeds (raw ∷ lines) t h = elim (Option-cases (read_lease c now ids raw t)) [
    | inl e ↦ absurd (ground (arith, import_read-Succeeds (lease_line (words raw)) t, e))
    | inr (t', e) ↦ rw e (read_leases-Succeeds lines t' (ground arith))
  ]

-- The ids cover the subnets of the converter, which the entries stand for.
covered :
    (c : Converter) (made : SiteData × Converter)
    → AllEntries IsKept c.subnets
    → map (λ e. e.subnet) made.0.subnet4 ≡ texts_of (sorted_by by_network c.subnets)
    → (ids : Dict Network ℕ) × (ids_from made.0.subnet4 [] ≡ some ids)
      × ((ip : ℕ) → Returns (λ sub. holds_id sub.network ids ≡ true) (containing ip c.subnets))
covered c made known e =
    let (ids, f, covers) =
      ids_from-Covers (sorted_by by_network c.subnets) made.0.subnet4 [] e
        (All-sorted_by by_network _ c.subnets (All-AllEntries IsKept c.subnets known)) in
    (
      ids,
      f,
      λ ip. Returns-imp _ _ (containing ip c.subnets) (containing-has ip c.subnets known) (λ sub h.
          covers sub.network
            (ground (arith, any-sorted_by by_network (λ p. p.0 == sub.network) c.subnets))),
    )

leases-Succeeds :
    (made : SiteData × Converter) (now : ℕ) (lease_lines : List Text) (ids : Dict Network ℕ)
    → ((ip : ℕ) → Returns (λ sub. holds_id sub.network ids ≡ true) (containing ip made.1.subnets))
    → all is_readable lease_lines ≡ true
    → Succeeds (leases made.1 now lease_lines ids)
unfolding leases
leases-Succeeds made now lease_lines ids held h =
    elim (Option-cases (read_leases made.1 now ids lease_lines no_leases)) [
      | inl e ↦
          absurd
            (ground (arith, read_leases-Succeeds made.1 now ids held lease_lines no_leases h, e))
      | inr (t, e) ↦ rw e refl
    ]

-- Once the site is made, main returns, if the expiries of the leases are decimal numbers: each network
-- it wrote is read back, with no bits of a host in it, and no lease is found in a subnet without an id.
pub main_returns :
    (prefix router_host : ℕ) (tag_subnets lines : List Text) (now : ℕ) (lease_lines : List Text)
    (c : Converter) (made : SiteData × Converter)
    → convert prefix router_host tag_subnets lines ≡ some c
    → site c ≡ some made
    → all is_readable lease_lines ≡ true
    → main prefix router_host tag_subnets lines now lease_lines ≢ none
unfolding main
main_returns prefix router_host tag_subnets lines now lease_lines c made h k r =
    let known = convert-IsKnown prefix router_host tag_subnets lines c h in
    let (names, same) = Returns-eq-some _ (site c) (site-entries c) k in
    let (ids, f, held) = covered c made known names in
    let ran =
      leases-Succeeds made now lease_lines ids
        (subst (λ d. (ip : ℕ) → Returns (λ sub. holds_id sub.network ids ≡ true) (containing ip d))
          (sym same) held)
        r in
    rw h (
      rw k (
        rw f (elim (Option-cases (leases made.1 now lease_lines ids)) [
          | inl e ↦ absurd (ground (arith, ran, e))
          | inr (out, e) ↦ rw e (λ p. cc)
        ])))
