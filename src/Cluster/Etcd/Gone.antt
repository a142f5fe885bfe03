-- ===== src/Cluster/Etcd/Gone.antt =====
-- What a removal of an etcd peer that worked has done.
use mathlib.Core.List.{Memᴰ}
use mathlib.Core.List.Memᴰ.{head, tail}
use ekco.Prelude.{
  ℕ, String, ◌≡◌, refl, ◌⊎◌, inl, inr, Bool, true, false, List, [], ◌∷◌, map, arith, ◌==◌, eq_iff,
  eqb, Bool-cases, any, All,
}
use ekco.Errors.{Result, ok, err}
use ekco.Kube.{EtcdMember, Call, Trace, Env}
use ekco.Cluster.Etcd.{get_etcd_peer_url, get_etcd_client_url, purged_member_id, remove_etcd_peer}

abbrev pub has_no_id : EtcdMember → Bool
has_no_id m = eqb m.id 0

-- Of the members, none has the URL, unless one has no id.
abbrev pub NoneAt : String → List EtcdMember → Type 0
NoneAt url members =
    All (λ (m : EtcdMember). (m.first_peer_url == url) ≡ false) members
    ⊎ (any has_no_id members ≡ true)

-- A member with the URL has the id.
abbrev pub OneAt : String → ℕ → List EtcdMember → Type 0
OneAt url id members = (m : EtcdMember) × Memᴰ m members × (m.first_peer_url ≡ url) × (m.id ≡ id)

next-NoneAt :
    (url : String) (m : EtcdMember) (members : List EtcdMember)
    → (m.first_peer_url == url) ≡ false
    → NoneAt url members
    → NoneAt url (m ∷ members)
next-NoneAt url m members here (inl later) = inl (here, later)
next-NoneAt url m members here (inr one) = inr (ground (arith, one))

-- The id that the loop ends with is that of a member at the URL, or the one that it began with.
purged_member_id-At :
    (url : String) (id : ℕ) (members : List EtcdMember)
    → (purged_member_id url id members ≡ id) × NoneAt url members
      ⊎ OneAt url (purged_member_id url id members) members
unfolding purged_member_id
purged_member_id-At url id [] = inl (refl, inl tt)
purged_member_id-At url id (m ∷ members) = elim (Bool-cases (m.first_peer_url == url)) [
  | inl here ↦ elim (purged_member_id-At url m.id members) [
    | inl (same, none_later) ↦
        inr (m, head refl, ground (arith, eq_iff m.first_peer_url url), ground (arith, same, here))
    | inr (n, seen, at, has) ↦ inr (n, tail seen, at, ground (arith, has, here))
  ]
  | inr other_url ↦ elim (purged_member_id-At url id members) [
    | inl (same, none_later) ↦
        inl (ground (arith, same, other_url), next-NoneAt url m members other_url none_later)
    | inr (n, seen, at, has) ↦ inr (n, tail seen, at, ground (arith, has, other_url))
  ]
]

-- The members were listed; the one at the URL of the address was then removed without an error, or there
-- was none.
abbrev pub EtcdGone : String → Env → Trace → Type 0
EtcdGone ip env s =
    (w : Trace) × (members : List EtcdMember) × (env.answer Call.etcd_member_list w ≡ ok members)
    × ((s ≡ Call.etcd_member_list ∷ w) × NoneAt (get_etcd_peer_url env ip) members
        ⊎ ((id : ℕ) × OneAt (get_etcd_peer_url env ip) id members
            × (s ≡ Call.etcd_member_remove id ∷ Call.etcd_member_list ∷ w)
            × (env.answer (Call.etcd_member_remove id) (Call.etcd_member_list ∷ w) ≡ ok tt)))

no_id-any :
    (m : EtcdMember) (members : List EtcdMember)
    → Memᴰ m members
    → has_no_id m ≡ true
    → any has_no_id members ≡ true
no_id-any m [] seen without = elim seen [ ]
no_id-any m (n ∷ members) (head same) without = ground (arith, same, without)
no_id-any m (n ∷ members) (tail seen) without = ground (arith, no_id-any m members seen without)

module _ (ip : String) (ips : List String) (env : Env) (t s : Trace)
    (worked : remove_etcd_peer ip ips env t ≡ (ok tt, s)) where
  abbrev asked : Trace
  asked = Call.new_etcd_client (map (get_etcd_client_url env) ips) ∷ Call.get_etcd_tls ∷ t

  abbrev url : String
  url = get_etcd_peer_url env ip

  removal_worked :
      (r : Result (Unit {0})) (members : List EtcdMember)
      → env.answer Call.etcd_member_list asked ≡ ok members
      → eqb (purged_member_id url 0 members) 0 ≡ false
      → env.answer
          (Call.etcd_member_remove (purged_member_id url 0 members))
          (Call.etcd_member_list ∷ asked)
        ≡ r
      → r ≡ ok tt
  unfolding remove_etcd_peer
  removal_worked (ok tt) members listed has_id answered = refl
  removal_worked (err e) members listed has_id answered =
      grind (arith, worked, listed, has_id, answered)

  with_members :
      (r : Result (List EtcdMember))
      → env.answer Call.etcd_member_list asked ≡ r
      → EtcdGone ip env s
  unfolding remove_etcd_peer
  with_members (err e) listed = grind (arith, worked, listed)
  with_members (ok members) listed =
      let id = purged_member_id url 0 members in
      elim (Bool-cases (eqb id 0)) [
        | inl no_id ↦
            let ends : s ≡ Call.etcd_member_list ∷ asked = grind (arith, worked, listed, no_id) in
            elim (purged_member_id-At url 0 members) [
              | inl (same, none_at) ↦ (asked, members, listed, inl (ends, none_at))
              | inr (m, seen, at, has) ↦ (
                asked,
                members,
                listed,
                inl (ends, inr (no_id-any m members seen (ground (arith, has, no_id)))),
              )
            ]
        | inr has_id ↦ elim (purged_member_id-At url 0 members) [
          | inl (same, none_at) ↦ grind (arith, same, has_id)
          | inr one ↦ (
            asked,
            members,
            listed,
            inr (
              id,
              one,
              grind (arith, worked, listed, has_id),
              removal_worked
                  (env.answer (Call.etcd_member_remove id) (Call.etcd_member_list ∷ asked)) members
                  listed has_id refl,
            ),
          )
        ]
      ]

  pub remove_etcd_peer-EtcdGone : EtcdGone ip env s
  remove_etcd_peer-EtcdGone = with_members (env.answer Call.etcd_member_list asked) refl
