-- ===== src/Server/Access.antt =====
-- server/socket.go, `AccessControlList`: the addresses that may connect. The mutex makes each
-- method one step; a list that starts as `DefaultACL` shares that map, which is not modelled.
use nodare_db_dev.Prelude.{
  Bool, Bool-cases, Bytes, List, Option, [], ap, arith, bytes_eq, bytes_eq_refl, bytes_eq_sound,
  false, if◌then◌else◌, inl, inr, none, some, true, ◌∷◌, ◌≡◌,
}

-- A Go map from addresses to booleans.
abbrev pub Acl : Type 0
Acl = List (Bytes × Bool)

abbrev pub remove : Bytes → Acl → Acl
remove ip [] = []
remove ip ((a, b) ∷ m) = let rest = remove ip m in if bytes_eq a ip then rest else (a, b) ∷ rest

-- A missing address reads as false.
unfoldable pub is_allowed : Acl → Bytes → Bool
is_allowed [] ip = false
is_allowed ((a, b) ∷ m) ip = if bytes_eq a ip then b else is_allowed m ip

unfoldable pub set_acl : Acl → Bytes → Bool → Acl
set_acl m ip false = remove ip m
set_acl m ip true = (ip, true) ∷ remove ip m

-- `SetupACL`: a list that is there stays, else it is `DefaultACL`, else a new map.
unfoldable pub setup_acl : Option Acl → Option Acl → Acl
setup_acl (some m) default_acl = m
setup_acl none (some d) = d
setup_acl none none = []

bytes_eq_trans : (a b c : Bytes) → bytes_eq a b ≡ true → bytes_eq a c ≡ bytes_eq b c
bytes_eq_trans a b c e = ap (λ x. bytes_eq x c) (bytes_eq_sound a b e)

bytes_eq_meet : (a b c : Bytes) → bytes_eq a c ≡ true → bytes_eq b c ≡ true → bytes_eq a b ≡ true
bytes_eq_meet a b c e d = rw (bytes_eq_sound a c e, bytes_eq_sound b c d) (bytes_eq_refl c)

is_allowed-remove :
    (m : Acl) (ip q : Bytes)
    → is_allowed (remove ip m) q ≡ (if bytes_eq ip q then false else is_allowed m q)
unfolding is_allowed
is_allowed-remove [] ip q = ground arith
is_allowed-remove ((a, b) ∷ m) ip q = elim (Bool-cases (bytes_eq a ip)) [
  | inl e ↦ rw e (ground (arith, is_allowed-remove m ip q, bytes_eq_trans a ip q e))
  | inr e ↦ rw e (ground (arith, is_allowed-remove m ip q, bytes_eq_meet a ip q, e))
]

-- Setting an address decides that address and no other, whatever the list had.
pub is_allowed-set_acl :
    (m : Acl) (ip q : Bytes) (val : Bool)
    → is_allowed (set_acl m ip val) q ≡ (if bytes_eq ip q then val else is_allowed m q)
unfolding is_allowed set_acl
is_allowed-set_acl m ip q false = is_allowed-remove m ip q
is_allowed-set_acl m ip q true = ground (arith, is_allowed-remove m ip q)
