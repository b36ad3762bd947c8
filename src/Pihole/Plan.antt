-- ===== src/Pihole/Plan.antt =====
-- The plan of netbox_pihole_sync.py: what one Pi-hole lacks and what it has too many of.
use k8s_homelab.Prelude.{
  String, ◌++◌, List, [], ◌∷◌, map, Bool, not, ◌&&◌, ◌||◌, Option, none, some, if◌then◌else◌, ◌>>=◌,
  filter, any, add, minus, union, ◌==◌, contains, nat_eq,
}
use k8s_homelab.Prelude.{list_eq, pair_eq, string_eq}
use k8s_homelab.Prelude.Text.{Text, lower, ends_with, rstrip, strip, words, split_on}
use k8s_homelab.Prelude.Sort.{sorted}

-- A wanted record: its name, its type and its value.
abbrev pub Entry : Type 0
Entry = Text × (String × Text)

unfoldable pub in_zone : Text → List Text → Bool
in_zone name zones = any (λ z. name == z || ends_with name (b'.' ∷ z)) zones

unfoldable pub kind_of : Text → String
kind_of ip = if contains ip b':' then "AAAA" else "A"

abbrev pub is_address : Entry → Bool
is_address w = w.1.0 == "A" || w.1.0 == "AAAA"

abbrev pub is_cname : Entry → Bool
is_cname w = w.1.0 == "CNAME"

abbrev pub host_text : Entry → Text
host_text w = w.1.1 ++ 32 ∷ w.0

abbrev pub cname_text : Entry → Text
cname_text w = w.0 ++ b',' ∷ w.1.1

-- The sets and lists that the loop over the host lines fills.
pub record HostScan : Type 0 where
  pub have : List Entry
  pub readd : List Entry
  pub remove_hosts : List Text
  pub left : List Text

pub record CnameScan : Type 0 where
  pub have : List Entry
  pub remove_cnames : List Text
  pub left : List Text

pub record Plan : Type 0 where
  pub remove_hosts : List Text
  pub add_hosts : List Text
  pub remove_cnames : List Text
  pub add_cnames : List Text
  pub left : List Text

abbrev first_or_empty : List Text → Text
first_or_empty [] = []
first_or_empty (t ∷ ts) = t

unfoldable pub cname_target : Text → Text
cname_target t = lower (rstrip b'.' (strip t))

-- A CNAME line's name and target.
unfoldable pub cname_pair : Text → Text × Text
unfolding cname_target
cname_pair line =
    let (name, rest) = split_on b',' line in
    (lower (strip name), cname_target (first_or_empty rest))

module _ (zones : List Text) (wanted : List Entry) (delete : Bool) where
  unfoldable pub want_a : List Entry
  want_a = filter is_address wanted

  -- A line with one name.
  unfoldable pub host_single : Text → Text → Text → HostScan → HostScan
  host_single line ip n s =
      let pair : Entry = (lower n, (kind_of ip, ip)) in
      if contains want_a pair
      then record s { have = add pair s.have }
      else if delete
      then record s { remove_hosts = s.remove_hosts ++ line ∷ [] }
      else record s { left = s.left ++ line ∷ [] }

  unfoldable pub split_pair : Text → Text → Entry
  split_pair ip n =
      if in_zone (lower n) zones then (lower n, (kind_of ip, ip)) else (n, (kind_of ip, ip))

  -- One name of a line with several.
  unfoldable pub host_split : Text → Text → HostScan → HostScan
  host_split ip n s =
      let pair = split_pair ip n in
      if in_zone pair.0 zones && not (contains want_a pair)
      then if delete
        then s
        else record s { left = s.left ++ host_text pair ∷ []; readd = add pair s.readd }
      else record s { readd = add pair s.readd }

  unfoldable pub host_splits : Text → List Text → HostScan → HostScan
  host_splits ip [] s = s
  host_splits ip (n ∷ names) s = host_splits ip names (host_split ip n s)

  unfoldable pub host_names : Text → Text → List Text → HostScan → HostScan
  host_names line ip (n ∷ []) s = host_single line ip n s
  host_names line ip names s =
      host_splits ip names (record s { remove_hosts = s.remove_hosts ++ line ∷ [] })

  -- `none` is the `ValueError` of unpacking a blank line.
  unfoldable pub host_words : Text → List Text → HostScan → Option HostScan
  host_words line [] s = none
  host_words line (ip ∷ names) s =
      some (if any (λ n. in_zone (lower n) zones) names then host_names line ip names s else s)

  unfoldable pub scan_hosts : List Text → HostScan → Option HostScan
  scan_hosts [] s = some s
  scan_hosts (line ∷ lines) s = do s' ← host_words line (words line) s; scan_hosts lines s'

  unfoldable pub cname_line : Text → CnameScan → CnameScan
  cname_line line s =
      let (name, target) = cname_pair line in
      let pair : Entry = (name, ("CNAME", target)) in
      if not (in_zone name zones)
      then s
      else if contains wanted pair
      then record s { have = add pair s.have }
      else if delete
      then record s { remove_cnames = s.remove_cnames ++ line ∷ [] }
      else record s { left = s.left ++ line ∷ [] }

  unfoldable pub scan_cnames : List Text → CnameScan → CnameScan
  scan_cnames [] s = s
  scan_cnames (line ∷ lines) s = scan_cnames lines (cname_line line s)

  unfoldable pub no_hosts : HostScan
  no_hosts = record { have = []; readd = []; remove_hosts = []; left = [] }

  unfoldable pub plan_from : HostScan → CnameScan → Plan
  plan_from h c = record {
    remove_hosts = h.remove_hosts;
    add_hosts = sorted (map host_text (union (minus want_a h.have) (minus h.readd h.have)));
    remove_cnames = c.remove_cnames;
    add_cnames = sorted (map cname_text (minus (filter is_cname wanted) c.have));
    left = sorted c.left;
  }

  unfoldable pub plan : List Text → List Text → Option Plan
  unfolding plan_from no_hosts
  plan hosts cnames = do
    h ← scan_hosts hosts no_hosts
    let c = scan_cnames cnames (record { have = []; remove_cnames = []; left = h.left })
    some (plan_from h c)
