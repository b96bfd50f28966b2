-- ===== src/Grouping/Ticks.antt =====
-- The loop of a tick over the groups (tick of grouping/index.ts).
use threadwork.Prelude.{
  ℕ, ◌≡◌, String, Bool, true, false, Option, none, some, [], ◌∷◌, arith, any, Bool-cases, inl, inr,
  str_eq, eq_iff, any-append_left, any-append_right,
}
use threadwork.Prelude.Store.{Store, lookup}
use threadwork.Grouping.{
  GroupState, GroupMessage, GroupingEngine, kept_group, tick_group, tick_groups,
}

-- The loop over the groups comes to the group of the key.
pub tick_groups-reports :
    (e : GroupingEngine) (now : ℕ) (key : String) (p : GroupMessage → Bool)
    (groups : Store GroupState) (g : GroupState)
    → lookup key groups ≡ some g
    → any p (tick_group e now key g).1 ≡ true
    → any p (tick_groups e now groups).1 ≡ true
unfolding tick_groups lookup
tick_groups-reports e now key p [] g found told = cc
tick_groups-reports e now key p ((k, x) ∷ rest) g found told = elim (Bool-cases (str_eq k key)) [
  | inl hit ↦
      let same_key : k ≡ key = ground (arith, eq_iff k key, hit) in
      let is_x : some x ≡ some g = rw hit at found in
      let same : x ≡ g = cc in
      let here : any p (tick_group e now k x).1 ≡ true = rw (same_key, same) told in
      any-append_left p (tick_group e now k x).1 (tick_groups e now rest).1 here
  | inr miss ↦
      any-append_right p (tick_group e now k x).1 (tick_groups e now rest).1
        (tick_groups-reports e now key p rest g (rw miss at found) told)
]

lookup-kept_group :
    (key k : String) (o : Option GroupState) (rest : Store GroupState) (u : GroupState)
    → o ≡ some u
    → str_eq k key ≡ true
    → lookup key (kept_group k o rest) ≡ some u
unfolding lookup
lookup-kept_group key k none rest u e hit = cc
lookup-kept_group key k (some x) rest u e hit = rw hit e

lookup-kept_other :
    (key k : String) (o : Option GroupState) (rest : Store GroupState) (u : GroupState)
    → str_eq k key ≡ false
    → lookup key rest ≡ some u
    → lookup key (kept_group k o rest) ≡ some u
unfolding lookup
lookup-kept_other key k none rest u miss e = e
lookup-kept_other key k (some x) rest u miss e = rw miss e

pub tick_groups-stays :
    (e : GroupingEngine) (now : ℕ) (key : String) (groups : Store GroupState) (g u : GroupState)
    → lookup key groups ≡ some g
    → (tick_group e now key g).0 ≡ some u
    → lookup key (tick_groups e now groups).0 ≡ some u
unfolding tick_groups lookup
tick_groups-stays e now key [] g u found left = cc
tick_groups-stays e now key ((k, x) ∷ rest) g u found left = elim (Bool-cases (str_eq k key)) [
  | inl hit ↦
      let same_key : k ≡ key = ground (arith, eq_iff k key, hit) in
      let is_x : some x ≡ some g = rw hit at found in
      let same : x ≡ g = cc in
      let here : (tick_group e now k x).0 ≡ some u = rw (same_key, same) left in
      lookup-kept_group key k (tick_group e now k x).0 (tick_groups e now rest).0 u here hit
  | inr miss ↦
      lookup-kept_other key k (tick_group e now k x).0 (tick_groups e now rest).0 u miss
        (tick_groups-stays e now key rest g u (rw miss at found) left)
]
