-- ===== src/Kea/Leases.antt =====
-- The leases to import: each belongs to the subnet of the site that holds its address, and every
-- subnet that is asked for has an id.
use mathlib.Core.Path.{subst}
use k8s_homelab.Prelude.{
  all-append, ltb, Returns-imp, Returns-self, list_eq, nat_eq, Returns-any, not, if_keeps,
  if-Returns, all, ◌<◌, refl, ◌∙◌, [], ==_eq, Returns-eq-some, ap, sym,
}
use k8s_homelab.Prelude.{
  arith, >>=-Returns, Bool-cases, option_eq, inr, true, none, Option-cases, ◌⊎◌, some, ◌&&◌, ◌∷◌,
  ◌==◌, false, any, ◌≡◌, inl, Returns, Bool, ℕ, Option, List,
}
use k8s_homelab.Prelude.Text.{words, codes, Text}
use k8s_homelab.Prelude.Decimal.{read_decimal}
use k8s_homelab.Prelude.Dict.{AllEntries, lookup-insert, insert, lookup, Dict}
use k8s_homelab.Ipv4.Networks.{read_network-read_strict, address-Returns}
use k8s_homelab.Ipv4.{read_strict, lies_in, address, read_network, Network, network_eq}
use k8s_homelab.Kea.Resolves.{containing-Returns, Holds}
use k8s_homelab.Kea.Main.{
  no_leases, read_lease, read_leases, import_line, convert, import_read, LeaseLine, leases,
  lease_line, import_lease, Tally, main, make_lease, Lease, ids_from,
}
use k8s_homelab.Kea.Entries.{site-entries}
use k8s_homelab.Kea.{subnet_containing, Subnet, Converter}
use k8s_homelab.Kea.Values.{is_mac}
use k8s_homelab.Kea.Site.{site, SiteData, Entry}
use k8s_homelab.Kea.Resolved.{convert-Returns}
use k8s_homelab.Ipv4.Laws.{address-address_text}
use k8s_homelab.Kea.Known.{IsKept, IsKnown, address_within}

abbrev text_holds : Option Network → Option ℕ → Bool
text_holds none ip = false
text_holds (some net) ip = address_within net ip

-- The lease names a subnet of the site, and its address lies in it.
unfoldable pub is_assigned : List Entry → Lease → Bool
is_assigned found l =
    any (λ e. e.id == l.subnet_id && text_holds (read_network e.subnet) (address l.ip_address))
      found

-- An entry gives the network the id.
abbrev gives : Network → ℕ → Entry → Bool
gives net id e = e.id == id && read_network e.subnet == some net

abbrev IdsFrom : Dict Network ℕ → List Entry → Dict Network ℕ → Type 0
IdsFrom before found ids =
    (net : Network) (id : ℕ)
    → lookup net ids ≡ some id
    → (lookup net before ≡ some id) ⊎ (any (gives net id) found ≡ true)

insert_again :
    (net given : Network) (id other : ℕ) (ids : Dict Network ℕ) (e : Entry)
    → read_network e.subnet ≡ some given
    → lookup net (insert given e.id ids) ≡ some id
    → (lookup net ids ≡ some id) ⊎ (gives net id e ≡ true)
insert_again net given id other ids e h k = elim (Bool-cases (given == net)) [
  | inl same ↦ inr (ground (arith, lookup-insert given net e.id ids))
  | inr differs ↦ inl (ground (arith, lookup-insert given net e.id ids))
]

ids_from-IdsFrom :
    (found : List Entry) (before : Dict Network ℕ)
    → Returns (IdsFrom before found) (ids_from found before)
unfolding ids_from
ids_from-IdsFrom [] before = λ net id h. inl h
ids_from-IdsFrom (e ∷ later) before = elim (Option-cases (read_strict e.subnet)) [
  | inl none_read ↦ rw none_read tt
  | inr (given, f) ↦
      >>=-Returns (λ n. n ≡ given) (IdsFrom before (e ∷ later)) (read_strict e.subnet) _
        (subst (Returns (λ n. n ≡ given)) (sym f) refl)
        (λ n same. elim (Option-cases (ids_from later (insert n e.id before))) [
          | inl g ↦ rw g tt
          | inr (ids, g) ↦ rw g (λ net id h.
              elim (Returns-eq-some (IdsFrom (insert n e.id before) later) _
                (ids_from-IdsFrom later (insert n e.id before)) g net id h) [
                  | inl held ↦
                      elim (insert_again net n id id before e
                        (read_network-read_strict e.subnet n (f ∙ ap some (sym same))) held) [
                          | inl early ↦ inl early
                          | inr here ↦ inr (ground arith)
                        ]
                  | inr there ↦ inr (ground arith)
                ])
        ])
]

is_assigned_of :
    (found : List Entry) (net : Network) (id : ℕ) (l : Lease) (ip : ℕ)
    → l.subnet_id ≡ id
    → address l.ip_address ≡ some ip
    → lies_in ip net ≡ true
    → any (gives net id) found ≡ true
    → is_assigned found l ≡ true
unfolding is_assigned
is_assigned_of [] net id l ip e f g h = absurd (cc)
is_assigned_of (entry ∷ found) net id l ip e f g h = elim (Bool-cases (gives net id entry)) [
  | inl here ↦ ground (
    arith,
    ap (λ n. text_holds n (address l.ip_address))
        (==_eq (read_network entry.subnet) (some net) (ground arith)),
  )
  | inr there ↦ ground (arith, is_assigned_of found net id l ip e f g)
]

lease_line-Returns : (f : List Text) → Returns (λ l. l.ip < 4294967296) (lease_line f)
unfolding lease_line
lease_line-Returns [] = tt
lease_line-Returns (e ∷ []) = tt
lease_line-Returns (e ∷ m ∷ []) = tt
lease_line-Returns (e ∷ m ∷ a ∷ []) = tt
lease_line-Returns (e ∷ m ∷ a ∷ h ∷ later) =
    if-Returns (λ l. l.ip < 4294967296) (e == codes "duid") _
      (λ other. >>=-Returns (λ n. n < 4294967296) _ (address a) _ (address-Returns a) (λ ip lt. lt))

abbrev AreAssigned : List Entry → Tally → Type 0
AreAssigned found t = all (is_assigned found) t.out ≡ true

make_lease-assigned :
    (found : List Entry) (ids : Dict Network ℕ) (l : LeaseLine) (expiry id : ℕ) (sub : Subnet)
    → IdsFrom [] found ids
    → l.ip < 4294967296
    → lies_in l.ip sub.network ≡ true
    → lookup sub.network ids ≡ some id
    → is_assigned found (make_lease l expiry id sub) ≡ true
unfolding make_lease lookup
make_lease-assigned found ids l expiry id sub from lt inside h =
    is_assigned_of found sub.network id (make_lease l expiry id sub) l.ip refl
      (address-address_text l.ip lt) inside
      (elim (from sub.network id h) [ inl early ↦ absurd (cc) | inr there ↦ there ])

import_lease-AreAssigned :
    (found : List Entry) (ids : Dict Network ℕ) (l : LeaseLine) (expiry : ℕ) (held : Option Subnet)
    (t : Tally)
    → IdsFrom [] found ids
    → l.ip < 4294967296
    → Returns (Holds l.ip) held
    → AreAssigned found t
    → Returns (AreAssigned found) (import_lease ids l expiry held t)
unfolding import_lease
import_lease-AreAssigned found ids l expiry none t from lt inside h = h
import_lease-AreAssigned found ids l expiry (some sub) t from lt inside h =
    if_keeps (Returns (AreAssigned found)) (is_mac l.mac) _ _
      (>>=-Returns (λ id. lookup sub.network ids ≡ some id) _ (lookup sub.network ids) _
        (Returns-self (lookup sub.network ids))
        (λ id e.
          all-append (is_assigned found) t.out _ h
            (ground (arith, make_lease-assigned found ids l expiry id sub from lt inside.1 e))))
      h

module _ (c : Converter) (known : AllEntries IsKept c.subnets) (now : ℕ) (found : List Entry)
    (ids : Dict Network ℕ) (from : IdsFrom [] found ids) where
  import_line-AreAssigned :
      (l : LeaseLine) (expiry : ℕ) (t : Tally)
      → l.ip < 4294967296
      → AreAssigned found t
      → Returns (AreAssigned found) (import_line c now ids l expiry t)
  unfolding import_line
  import_line-AreAssigned l expiry t lt h =
      if_keeps (Returns (AreAssigned found)) (not (expiry == 0) && ltb expiry now) _ _ h (
        import_lease-AreAssigned found ids l expiry (subnet_containing l.ip c) t from lt
          (containing-Returns l.ip c.subnets known) h)

  import_read-AreAssigned :
      (line : Option LeaseLine) (t : Tally)
      → Returns (λ l. l.ip < 4294967296) line
      → AreAssigned found t
      → Returns (AreAssigned found) (import_read c now ids line t)
  import_read-AreAssigned none t lt h = h
  import_read-AreAssigned (some l) t lt h =
      >>=-Returns _ _ (read_decimal l.expiry) _ (Returns-any (read_decimal l.expiry))
        (λ expiry u. import_line-AreAssigned l expiry t lt h)

  read_leases-AreAssigned :
      (lines : List Text) (t : Tally)
      → AreAssigned found t
      → Returns (AreAssigned found) (read_leases c now ids lines t)
  unfolding read_leases read_lease
  read_leases-AreAssigned [] t h = h
  read_leases-AreAssigned (raw ∷ lines) t h =
      >>=-Returns (AreAssigned found) (AreAssigned found) (read_lease c now ids raw t) _
        (import_read-AreAssigned (lease_line (words raw)) t (lease_line-Returns (words raw)) h)
        (λ t' k. read_leases-AreAssigned lines t' k)

main-Returns :
    (prefix router_host : ℕ) (tag_subnets lines : List Text) (now : ℕ) (lease_lines : List Text)
    → Returns
        (λ out. all (is_assigned out.0.subnet4) out.1 ≡ true)
        (main prefix router_host tag_subnets lines now lease_lines)
unfolding main leases
main-Returns prefix router_host tag_subnets lines now lease_lines =
    >>=-Returns IsKnown _ (convert prefix router_host tag_subnets lines) _
      (convert-Returns prefix router_host tag_subnets lines)
      (λ c known.
        >>=-Returns (λ made. made.1.subnets ≡ c.subnets) _ (site c) _
          (Returns-imp _ _ (site c) (site-entries c) (λ made same. same.1))
          (λ made same.
            >>=-Returns (IdsFrom [] made.0.subnet4) _ (ids_from made.0.subnet4 []) _
              (ids_from-IdsFrom made.0.subnet4 [])
              (λ ids from.
                >>=-Returns (λ out. all (is_assigned made.0.subnet4) out.0 ≡ true) _
                  (leases made.1 now lease_lines ids) _
                  (>>=-Returns (AreAssigned made.0.subnet4) _
                    (read_leases made.1 now ids lease_lines no_leases) _
                    (read_leases-AreAssigned made.1 (subst (AllEntries IsKept) (sym same) known.0)
                      now made.0.subnet4 ids from lease_lines no_leases refl)
                    (λ t h. h))
                  (λ out h. h))))

-- Each lease to import names a subnet of the site that is written, and its address lies in it.
pub main-is_assigned :
    (prefix router_host : ℕ) (tag_subnets lines : List Text) (now : ℕ) (lease_lines : List Text)
    (s : SiteData) (found : List Lease)
    → main prefix router_host tag_subnets lines now lease_lines ≡ some (s, found)
    → all (is_assigned s.subnet4) found ≡ true
main-is_assigned prefix router_host tag_subnets lines now lease_lines s found h =
    Returns-eq-some (λ out. all (is_assigned out.0.subnet4) out.1 ≡ true)
      (main prefix router_host tag_subnets lines now lease_lines)
      (main-Returns prefix router_host tag_subnets lines now lease_lines) h
