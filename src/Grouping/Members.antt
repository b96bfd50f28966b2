-- ===== src/Grouping/Members.antt =====
-- The active members of a group (ingest, markInactive and syncActiveMembers of grouping/index.ts).
use mathlib.Core.Path.{subst}
use threadwork.Prelude.{
  ℕ, ◌≡◌, refl, String, Bool, true, false, not, ◌&&◌, some, List, [], ◌∷◌, map, arith, any, keep,
  Bool-cases, inl, inr, str_eq, eq_iff, length, ap, ◌∙◌, Option-cases, sym, ◌==◌,
}
use threadwork.Prelude.Store.{Store, lookup, insert, lookup-insert}
use threadwork.Grouping.{
  MemberEntry, GroupState, active_members, agents_of, ingest_member, ingest_group, clear_member,
  sync_member, AlertInput, seen_again, new_member, cleared, synced,
}

-- The agent is an active member of the group.
abbrev pub IsActive : String → GroupState → Type 0
IsActive agent g =
    (m : MemberEntry) × (lookup agent g.members ≡ some m) × (m.is_active ≡ true) × (m.agent ≡ agent)

pub named : String → List String → Bool
named agent agents = any (λ a. str_eq a agent) agents

abbrev actives : Store MemberEntry → Store MemberEntry
actives ms = keep (λ (entry : String × MemberEntry). entry.1.is_active) ms

named-actives :
    (agent : String) (ms : Store MemberEntry) (m : MemberEntry)
    → lookup agent ms ≡ some m
    → m.is_active ≡ true
    → m.agent ≡ agent
    → named agent (agents_of (actives ms)) ≡ true
unfolding lookup agents_of named
named-actives agent [] m found active same = cc
named-actives agent ((k, x) ∷ rest) m found active same = elim (Bool-cases (str_eq k agent)) [
  | inl hit ↦
      let is_x : some x ≡ some m = rw hit at found in
      let x_active : x.is_active ≡ true = cc in
      let x_named : str_eq x.agent agent ≡ true =
        ground (arith, eq_iff x.agent agent, (let p : x.agent ≡ agent = cc in p)) in
      rw x_active (rw x_named refl)
  | inr miss ↦
      let later = named-actives agent rest m (rw miss at found) active same in
      elim (Bool-cases x.is_active) [
        | inr idle ↦ rw idle later
        | inl busy ↦
            rw busy
              (elim (Bool-cases (str_eq x.agent agent)) [ inl h ↦ rw h refl | inr h ↦ rw h later ])
      ]
]

-- A message of the group names its active members.
pub named-active_members :
    (agent : String) (g : GroupState)
    → IsActive agent g
    → named agent (agents_of (active_members g)) ≡ true
named-active_members agent g (m, found, active, same) =
    named-actives agent g.members m found active same

nonempty :
    (agent : String) (ms : Store MemberEntry)
    → named agent (agents_of ms) ≡ true
    → (length ms == 0) ≡ false
unfolding named agents_of
nonempty agent [] e = cc
nonempty agent (x ∷ rest) e = ground arith

pub active_nonempty :
    (agent : String) (g : GroupState) → IsActive agent g → (length (active_members g) == 0) ≡ false
active_nonempty agent g h = nonempty agent (active_members g) (named-active_members agent g h)

-- Writing an entry leaves an active member active, unless the entry is its own and is not active.
insert-IsActive :
    (agent other : String) (x : MemberEntry) (ms : Store MemberEntry) (m : MemberEntry)
    → lookup agent ms ≡ some m
    → m.is_active ≡ true
    → m.agent ≡ agent
    → (str_eq other agent ≡ true → (x.is_active ≡ true) × (x.agent ≡ agent))
    → (u : MemberEntry) × (lookup agent (insert other x ms) ≡ some u)
      × (u.is_active ≡ true)
      × (u.agent ≡ agent)
insert-IsActive agent other x ms m found active same own = elim (Bool-cases (str_eq other agent)) [
  | inl h ↦
      let (x_active, x_named) = own h in
      (x, lookup-insert other agent x ms ∙ rw h refl, x_active, x_named)
  | inr h ↦ (m, lookup-insert other agent x ms ∙ rw h found, active, same)
]

own_entry :
    (agent other : String) (ms : Store MemberEntry) (m x : MemberEntry)
    → lookup agent ms ≡ some m
    → lookup other ms ≡ some x
    → str_eq other agent ≡ true
    → x ≡ m
own_entry agent other ms m x found found_other e =
    let same : other ≡ agent = ground (arith, eq_iff other agent, e) in
    let here : lookup agent ms ≡ some x = subst (λ k. lookup k ms ≡ some x) same found_other in
    let both : some x ≡ some m = sym here ∙ found in cc

pub ingest-IsActive :
    (agent : String) (alert : AlertInput) (now : ℕ) (g : GroupState)
    → IsActive agent g
    → IsActive agent (ingest_group alert now g)
unfolding ingest_group ingest_member
ingest-IsActive agent alert now g (m, found, active, same) =
    elim (Option-cases (lookup alert.agent g.members)) [
      | inl missing ↦ rw missing (
          insert-IsActive agent alert.agent (new_member alert.agent now) g.members m found active
            same
            (λ h. (
              refl,
              (let p : alert.agent ≡ agent = ground (arith, eq_iff alert.agent agent, h) in p),
            )))
      | inr (x, here) ↦
          let kept =
            insert-IsActive agent alert.agent (seen_again now x) g.members m found active same (λ h.
              (
                refl,
                ap (λ (u : MemberEntry). u.agent)
                      (own_entry agent alert.agent g.members m x found here h)
                    ∙ same,
              )) in
          rw here
            (elim (Bool-cases x.is_active) [ inl busy ↦ rw busy kept | inr idle ↦ rw idle kept ])
    ]

pub clear-IsActive :
    (agent other : String) (now : ℕ) (g : GroupState)
    → str_eq other agent ≡ false
    → IsActive agent g
    → IsActive agent (clear_member other now (lookup other g.members) g)
unfolding clear_member
clear-IsActive agent other now g apart (m, found, active, same) =
    elim (Option-cases (lookup other g.members)) [
      | inl missing ↦ rw missing (m, found, active, same)
      | inr (x, here) ↦ rw here (elim (Bool-cases x.is_active) [
        | inr idle ↦ rw idle (m, found, active, same)
        | inl busy ↦ rw busy (
            insert-IsActive agent other (cleared now x) g.members m found active same
              (λ h. (let no : true ≡ false = sym h ∙ apart in cc)))
      ])
    ]

sync-IsActive :
    (agent : String) (active_agents : List String) (now : ℕ) (ms : Store MemberEntry)
    (m : MemberEntry)
    → any (str_eq agent) active_agents ≡ true
    → lookup agent ms ≡ some m
    → lookup agent (map (sync_member active_agents now) ms) ≡ some m
unfolding sync_member lookup
sync-IsActive agent active_agents now [] m listed found = cc
sync-IsActive agent active_agents now ((k, x) ∷ rest) m listed found =
    elim (Bool-cases (str_eq k agent)) [
      | inl hit ↦
          let same : agent ≡ k = ground (arith, eq_iff k agent, hit) in
          let k_listed : any (str_eq k) active_agents ≡ true =
            subst (λ a. any (str_eq a) active_agents ≡ true) same listed in
          rw (k_listed, hit) (rw hit at found)
      | inr miss ↦
          let later = sync-IsActive agent active_agents now rest m listed (rw miss at found) in
          elim (Bool-cases (not (any (str_eq k) active_agents) && x.is_active)) [
            | inl h ↦ rw (h, miss) later
            | inr h ↦ rw (h, miss) later
          ]
    ]

pub synced-IsActive :
    (agent : String) (active_agents : List String) (now : ℕ) (g : GroupState)
    → any (str_eq agent) active_agents ≡ true
    → IsActive agent g
    → IsActive agent (synced active_agents now g)
synced-IsActive agent active_agents now g listed (m, found, active, same) =
    (m, sync-IsActive agent active_agents now g.members m listed found, active, same)
