-- ===== src/Pihole/Memory.antt =====
-- A Pi-hole that keeps its lines in memory and refuses a line that is there already or that is
-- gone, the stand-in for the API in runs and examples.
use k8s_homelab.Prelude.{
  if◌then◌else◌, ◌≡◌, refl, List, [], ◌∷◌, ◌++◌, not, arith, filter, contains, ◌==◌, list_eq,
  nat_eq, contains-append, contains-filter,
}
use k8s_homelab.Prelude.Text.{Text}
use k8s_homelab.Pihole.Server.{refused, Kind, hosts, cname_records, Method, delete, put, ok, Server}
use k8s_homelab.Pihole.Server.Requests.{takes, IsLawful, changed, other}
use k8s_homelab.Pihole.Converge.{IsApplied}

-- The lines that a plan leaves.
abbrev pub apply_lines : List Text → List Text → List Text → List Text
apply_lines before removed added = filter (λ l. not (contains removed l)) before ++ added

pub apply_lines-IsApplied :
    (before removed added : List Text)
    → IsApplied before removed added (apply_lines before removed added)
apply_lines-IsApplied before removed added l = ground (
  arith,
  contains-append (filter (λ l. not (contains removed l)) before) added l,
  contains-filter (λ l. not (contains removed l)) before l,
)

pub record Lines : Type 0 where
  pub host_lines : List Text
  pub cname_lines : List Text

abbrev pub lines_of : Kind → Lines → List Text
lines_of hosts s = s.host_lines
lines_of cname_records s = s.cname_lines

abbrev pub set_lines : Kind → List Text → Lines → Lines
set_lines hosts ls s = record s { host_lines = ls }
set_lines cname_records ls s = record s { cname_lines = ls }

abbrev pub changed_lines : Method → Text → List Text → List Text
changed_lines delete l ls = filter (λ x. not (x == l)) ls
changed_lines put l ls = ls ++ l ∷ []

abbrev pub memory : Server Lines
memory = record {
  login = λ s. (ok tt, s);
  lists = λ s. (ok (s.host_lines, s.cname_lines), s);
  change = λ m k l s.
      if takes m (lines_of k s) l
      then (ok tt, set_lines k (changed_lines m l (lines_of k s)) s)
      else (refused, s);
  close = λ s. s;
}

contains-changed_lines :
    (m : Method) (l : Text) (ls : List Text) (x : Text)
    → contains (changed_lines m l ls) x ≡ changed m l ls x
contains-changed_lines delete l ls x = contains-filter (λ y. not (y == l)) ls x
contains-changed_lines put l ls x = ground (arith, contains-append ls (l ∷ []) x)

pub memory_answers :
    (m : Method) (k : Kind) (l : Text) (s : Lines)
    → let t = set_lines k (changed_lines m l (lines_of k s)) s in
      ((x : Text) → contains (lines_of k t) x ≡ changed m l (lines_of k s) x)
      × (lines_of (other k) t ≡ lines_of (other k) s)
memory_answers m hosts l s = (contains-changed_lines m l s.host_lines, refl)
memory_answers m cname_records l s = (contains-changed_lines m l s.cname_lines, refl)

unfoldable pub memory-IsLawful : IsLawful memory
memory-IsLawful = record {
  lines = lines_of;
  reads = λ s. refl;
  answers = λ m k l s h.
      let (here, there) = memory_answers m k l s in
      (set_lines k (changed_lines m l (lines_of k s)) s, rw h refl, here, there);
}
