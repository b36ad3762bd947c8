-- ===== src/Kea/ReadLines.antt =====
-- Reading the lines of a file keeps what holds of the subnets.
use mathlib.Core.Path.{subst}
use k8s_homelab.Prelude.{
  sym, arith, ◌≡◌, list_eq, nat_eq, contains, ◌<◌, ◌++◌, ◌>>=◌, Returns-eq-some, refl, inr, ◌||◌,
  if◌then◌else◌, All-append, inl, >>=-Returns, Option-cases, [],
}
use k8s_homelab.Prelude.{◌==◌, none, some, Bool-cases, ◌∷◌, Returns, List, ℕ, Option}
use k8s_homelab.Prelude.Text.{codes, is_empty, strip, starts_with, Text}
use k8s_homelab.Kea.Read.{
  is_unread, option_last, option_tag, key_value, host_part, host_made, domain_made, is_vendor,
  read_pair, no_host, domain, dhcp_option, dhcp_host, handle,
}
use k8s_homelab.Kea.Read.{
  domain_network, domain_from, read, read_line, host_parts, option_from, queue, option_code,
}
use k8s_homelab.Kea.Reads.{host_part-Returns, dhcp_range-Returns}
use k8s_homelab.Ipv4.Networks.{read_network-Returns, network-Returns, address-Returns, IsNetwork}
use k8s_homelab.Ipv4.{network, address, is_ipv4, Network}
use k8s_homelab.Kea.Known.{same-IsKept, subnet_for-IsKnown, HostBound, IsKnown}
use k8s_homelab.Kea.{Note, Host, Converter}

host_parts_stop :
    (line p : Text) (later : List Text) (h : Host) (info : List Note)
    → (host_part line p h info).0 ≡ none
    → (host_parts line (p ∷ later) h info).0 ≡ none
unfolding host_parts
host_parts_stop line p later h info e = ground (arith, e)

host_parts_next :
    (line p : Text) (later : List Text) (h g : Host) (info : List Note)
    → (host_part line p h info).0 ≡ some g
    → host_parts line (p ∷ later) h info ≡ host_parts line later g (host_part line p h info).1
unfolding host_parts
host_parts_next line p later h g info e = ground (arith, e)

host_parts-Returns :
    (line : Text) (parts : List Text) (h : Host) (info : List Note)
    → HostBound h
    → Returns HostBound (host_parts line parts h info).0
host_parts-Returns line [] h info b = unfold host_parts in b
host_parts-Returns line (p ∷ later) h info b = elim (Option-cases (host_part line p h info).0) [
  | inl e ↦ subst (Returns HostBound) (sym (host_parts_stop line p later h info e)) tt
  | inr (g, e) ↦
      subst (λ r. Returns HostBound r.0) (sym (host_parts_next line p later h g info e))
        (host_parts-Returns line later g (host_part line p h info).1
          (Returns-eq-some HostBound _ (host_part-Returns line p h info b) e))
]

host_made-IsKnown :
    (line : Text) (found : Option Host) (c : Converter)
    → Returns HostBound found
    → IsKnown c
    → IsKnown (host_made line found c)
host_made-IsKnown line none c b h = h
host_made-IsKnown line (some made) c b (subnets, tags, hosts) =
    (subnets, tags, All-append HostBound c.hosts (made ∷ []) hosts (b, tt))

dhcp_host-Returns :
    (value line : Text) (c : Converter) → IsKnown c → Returns IsKnown (dhcp_host value line c)
unfolding dhcp_host
dhcp_host-Returns value line c h =
    host_made-IsKnown line _ _ (host_parts-Returns line _ (no_host line) c.info tt) h

queue-IsKnown :
    (line : Text) (tags later : List Text) (found : Option ℕ) (problem : Note) (c : Converter)
    → IsKnown c
    → IsKnown (queue line tags later found problem c)
unfolding queue
queue-IsKnown line tags later none problem c h = h
queue-IsKnown line tags later (some code) problem c h = h

option_code-IsKnown :
    (line : Text) (tags : List Text) (opt : Text) (later : List Text) (c : Converter)
    → IsKnown c
    → IsKnown (option_code line tags opt later c)
unfolding option_code
option_code-IsKnown line tags opt later c h =
    elim (Bool-cases (starts_with opt (codes "option6:"))) [
      | inl e ↦ rw e h
      | inr e ↦ rw e (elim (Bool-cases (starts_with opt (codes "option:"))) [
        | inl f ↦ rw f (queue-IsKnown line tags later _ _ c h)
        | inr f ↦ rw f (queue-IsKnown line tags later _ _ c h)
      ])
    ]

option_last-IsKnown :
    (line : Text) (tags : List Text) (head : Text) (later : List Text) (c : Converter)
    → IsKnown c
    → IsKnown (option_last line tags head later c)
unfolding option_last
option_last-IsKnown line tags head later c h = elim (Bool-cases (is_vendor head)) [
  | inl e ↦ rw e h
  | inr e ↦ rw e (option_code-IsKnown line tags head later c h)
]

option_from-IsKnown :
    (line : Text) (tags parts : List Text) (c : Converter)
    → IsKnown c
    → IsKnown (option_from line tags parts c)
unfolding option_from option_tag starts_with
option_from-IsKnown line tags [] c h = h
option_from-IsKnown line tags (head ∷ later) c h = elim (Option-cases (option_tag head)) [
  | inl e ↦ rw e (option_last-IsKnown line tags head later c h)
  | inr (tag, e) ↦ rw e (option_from-IsKnown line (tags ++ tag ∷ []) later c h)
]

domain_network-Returns :
    (prefix : ℕ) (target : Text) (later : List Text)
    → Returns IsNetwork (domain_network prefix target later)
unfolding domain_network
domain_network-Returns prefix target later = elim (Bool-cases (contains target b'/')) [
  | inl e ↦ rw e (read_network-Returns target)
  | inr e ↦ rw e (bare later)
]
  where
    bare :
        (later : List Text)
        → Returns IsNetwork (elim later [
          | [] ↦ none
          | p ∷ more ↦ if is_ipv4 p then (address target >>= λ a. network a prefix) else none
        ])
    bare [] = tt
    bare (p ∷ more) = elim (Bool-cases (is_ipv4 p)) [
      | inl e ↦ rw e (
          >>=-Returns (λ n. n < 4294967296) IsNetwork (address target) _ (address-Returns target)
            (λ a lt. network-Returns a prefix lt))
      | inr e ↦ rw e tt
    ]

domain_made-IsKnown :
    (line name : Text) (found : Option Network) (c : Converter)
    → Returns IsNetwork found
    → IsKnown c
    → IsKnown (domain_made line name found c)
domain_made-IsKnown line name none c w h = h
domain_made-IsKnown line name (some net) c w h =
    subnet_for-IsKnown net _ c w (λ sub. same-IsKept net sub _ refl refl) h

domain_from-IsKnown :
    (line name : Text) (parts : List Text) (c : Converter)
    → IsKnown c
    → IsKnown (domain_from line name parts c)
unfolding domain_from
domain_from-IsKnown line name [] c h = h
domain_from-IsKnown line name (target ∷ later) c h =
    domain_made-IsKnown line name _ c (domain_network-Returns c.prefix target later) h

pub handle-Returns :
    (key value line : Text) (c : Converter) → IsKnown c → Returns IsKnown (handle key value line c)
unfolding handle dhcp_option domain
handle-Returns key value line c h = elim (Bool-cases (key == codes "dhcp-range")) [
  | inl e ↦ rw e (dhcp_range-Returns value line c h)
  | inr e ↦ rw e (elim (Bool-cases (key == codes "dhcp-host")) [
    | inl f ↦ rw f (dhcp_host-Returns value line c h)
    | inr f ↦
        rw f (elim (Bool-cases (key == codes "dhcp-option" || key == codes "dhcp-option-force")) [
          | inl g ↦ rw g (option_from-IsKnown line [] _ c h)
          | inr g ↦ rw g (elim (Bool-cases (key == codes "domain")) [
            | inl i ↦ rw i (domain_from-IsKnown line _ _ c h)
            | inr i ↦ rw i (elim (Bool-cases (is_unread key)) [ inl j ↦ rw j h | inr j ↦ rw j h ])
          ])
        ])
  ])
]

read_pair-Returns :
    (line : Text) (found : Option (Text × Text)) (c : Converter)
    → IsKnown c
    → Returns IsKnown (read_pair line found c)
read_pair-Returns line none c h = h
read_pair-Returns line (some (key, value)) c h = handle-Returns (strip key) (strip value) line c h

read_line-Returns : (raw : Text) (c : Converter) → IsKnown c → Returns IsKnown (read_line raw c)
unfolding read_line
read_line-Returns raw c h =
    elim (Bool-cases (is_empty (strip raw) || starts_with (strip raw) (codes "#"))) [
      | inl e ↦ rw e h
      | inr e ↦ rw e (read_pair-Returns (strip raw) (key_value (strip raw)) c h)
    ]

pub read-Returns : (lines : List Text) (c : Converter) → IsKnown c → Returns IsKnown (read lines c)
unfolding read
read-Returns [] c h = h
read-Returns (raw ∷ lines) c h =
    >>=-Returns IsKnown IsKnown (read_line raw c) _ (read_line-Returns raw c h)
      (λ c' k. read-Returns lines c' k)
