-- ===== src/Webhook/Zones/Laws.antt =====
-- The zone of a name is the longest that holds it, and a name splits into its zone and the rest.
use mathlib.Core.List.{Memᴰ}
use k8s_homelab.Prelude.{
  suc, ◌≤◌, ◌≡◌, refl, List, [], ◌∷◌, Bool, true, false, ◌&&◌, ◌||◌, Option, none, some, ◌==◌,
  ==_eq, any, length, arith, ap, list_eq, nat_eq, Bool-cases, inl,
}
use k8s_homelab.Prelude.{inr, not, all, leb, ◌⊎◌}
use k8s_homelab.Prelude.Text.{Text, lower, rstrip}
use k8s_homelab.Webhook.Zones.{Zone, normal, is_under, is_longer, zone_loop, zone_for}

length-lower : (s : Text) → length (lower s) ≡ length s
unfolding lower
length-lower [] = refl
length-lower (c ∷ s) = ap suc (length-lower s)

-- A zone's name as NetBox keeps it, without a trailing dot.
abbrev pub is_dotless : Zone → Bool
is_dotless z = rstrip b'.' z.name == z.name

length-normal : (z : Zone) → is_dotless z ≡ true → length (normal z.name) ≡ length z.name
unfolding normal
length-normal z h = rw (==_eq (rstrip b'.' z.name) z.name h) (length-lower z.name)

-- The zone holds the name, which is normal already.
abbrev pub holds : Text → Zone → Bool
holds fqdn z = is_under fqdn (normal z.name)

abbrev pub is_bounded : Text → Zone → Zone → Bool
is_bounded fqdn z y = not (holds fqdn y) || leb (length y.name) (length z.name)

abbrev BestHolds : Text → Option Zone → Type 0
BestHolds fqdn none = Unit
BestHolds fqdn (some b) = holds fqdn b ≡ true

abbrev BestLe : Option Zone → Zone → Type 0
BestLe none z = Unit
BestLe (some b) z = length b.name ≤ length z.name

-- What the loop over `zones` from `best` returns.
abbrev Chosen : Text → List Zone → Option Zone → Option Zone → Type 0
Chosen fqdn zones best none = (best ≡ none) × (any (holds fqdn) zones ≡ false)
Chosen fqdn zones best (some z) =
    ((best ≡ some z) ⊎ Memᴰ z zones)
    × (holds fqdn z ≡ true)
    × (all (is_bounded fqdn z) zones ≡ true)
    × BestLe best z

Chosen-cons_taken :
    (fqdn : Text) (z : Zone) (zones : List Zone) (best o : Option Zone)
    → is_dotless z ≡ true
    → is_longer (normal z.name) best ≡ true
    → Chosen fqdn zones (some z) o
    → Chosen fqdn (z ∷ zones) best o
Chosen-cons_taken fqdn z zones best none d l (e, h) = absurd (cc)
Chosen-cons_taken fqdn z zones none (some y) d l (m, h, b, le) =
    (inr (taken_member m), h, ground arith, tt)
  where
    taken_member : ((some z ≡ some y) ⊎ Memᴰ y zones) → Memᴰ y (z ∷ zones)
    taken_member (inl e) = Memᴰ.head (ground arith)
    taken_member (inr i) = Memᴰ.tail i
Chosen-cons_taken fqdn z zones (some x) (some y) d l (m, h, b, le) =
    (inr (taken_member m), h, ground arith, ground (arith, length-normal z d))
  where
    taken_member : ((some z ≡ some y) ⊎ Memᴰ y zones) → Memᴰ y (z ∷ zones)
    taken_member (inl e) = Memᴰ.head (ground arith)
    taken_member (inr i) = Memᴰ.tail i

Chosen-cons_passed :
    (fqdn : Text) (z : Zone) (zones : List Zone) (best o : Option Zone)
    → is_dotless z ≡ true
    → (holds fqdn z && is_longer (normal z.name) best) ≡ false
    → Chosen fqdn zones best o
    → Chosen fqdn (z ∷ zones) best o
Chosen-cons_passed fqdn z zones none none d l (e, h) = (e, ground arith)
Chosen-cons_passed fqdn z zones (some x) none d l (e, h) = absurd (cc)
Chosen-cons_passed fqdn z zones none (some y) d l (m, h, b, le) = (passed m, h, ground arith, tt)
  where
    passed : ((none ≡ some y) ⊎ Memᴰ y zones) → (none ≡ some y) ⊎ Memᴰ y (z ∷ zones)
    passed (inl e) = inl e
    passed (inr i) = inr (Memᴰ.tail i)
Chosen-cons_passed fqdn z zones (some x) (some y) d l (m, h, b, le) =
    (passed m, h, ground (arith, length-normal z d), le)
  where
    passed : ((some x ≡ some y) ⊎ Memᴰ y zones) → (some x ≡ some y) ⊎ Memᴰ y (z ∷ zones)
    passed (inl e) = inl e
    passed (inr i) = inr (Memᴰ.tail i)

zone_loop-Chosen :
    (fqdn : Text) (zones : List Zone) (best : Option Zone)
    → all is_dotless zones ≡ true
    → BestHolds fqdn best
    → Chosen fqdn zones best (zone_loop fqdn zones best)
unfolding zone_loop
zone_loop-Chosen fqdn [] none d h = (refl, refl)
zone_loop-Chosen fqdn [] (some b) d h = (inl refl, h, refl, omega arith)
zone_loop-Chosen fqdn (z ∷ zones) best d h =
    elim (Bool-cases (holds fqdn z && is_longer (normal z.name) best)) [
      | inl e ↦ rw e (
          Chosen-cons_taken fqdn z zones best _ (ground arith) (ground arith)
            (zone_loop-Chosen fqdn zones (some z) (ground arith) (ground arith)))
      | inr e ↦ rw e (
          Chosen-cons_passed fqdn z zones best _ (ground arith) e
            (zone_loop-Chosen fqdn zones best (ground arith) h))
    ]

-- A zone of the list that holds the name, and is no shorter than any other that does.
pub record IsLongest (fqdn : Text) (zones : List Zone) (z : Zone) : Type 0 where
  pub member : Memᴰ z zones
  pub held : holds (normal fqdn) z ≡ true
  pub longest : all (is_bounded (normal fqdn) z) zones ≡ true

abbrev pub Found : Text → List Zone → Option Zone → Type 0
Found fqdn zones none = any (holds (normal fqdn)) zones ≡ false
Found fqdn zones (some z) = IsLongest fqdn zones z

Found-Chosen :
    (fqdn : Text) (zones : List Zone) (o : Option Zone)
    → Chosen (normal fqdn) zones none o
    → Found fqdn zones o
Found-Chosen fqdn zones none (e, h) = h
Found-Chosen fqdn zones (some z) (inl e, h, b, l) = absurd (cc)
Found-Chosen fqdn zones (some z) (inr m, h, b, l) = record { member = m; held = h; longest = b }

-- `zone_for` returns a longest zone that holds the name, and none just when no zone does.
pub zone_for-Found :
    (fqdn : Text) (zones : List Zone)
    → all is_dotless zones ≡ true
    → Found fqdn zones (zone_for fqdn zones)
unfolding zone_for
zone_for-Found fqdn zones d =
    Found-Chosen fqdn zones (zone_for fqdn zones) (zone_loop-Chosen (normal fqdn) zones none d tt)
