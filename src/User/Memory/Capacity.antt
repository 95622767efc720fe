-- ===== src/User/Memory/Capacity.antt =====
-- internal/user/memory_repository.go: the promise of CreateSession.
use task_api.Common.{
  ℕ, ◌-◌, ◌≤◌, ◌<◌, String, ◌≡◌, refl, ◌≢◌, sym, true, false, none, some, List, arith, inl, inr,
  ◌⊎◌, Option-cases, Bool-cases, if◌then◌else◌, str_eq, str_eq_iff, length, take, drop, select, any,
  In, leb, length-select-append, length-select, select-select_comm, take-append-drop, length-drop,
  In-select→, In-select←, In-append, In-append_left, subst, str_eq-cases, leb→le, ap, ◌∙◌, ◌++◌,
}
use task_api.Common.Dict.{
  Dict, lookup, insert, values, HasUniqueKeys, lookup-insert, insert-HasUniqueKeys,
  In-values_of_lookup,
}
use task_api.Common.Sort.{
  sort_by, IsOrdered, sort_by-IsOrdered, length-sort_by, length-select-sort_by, In-sort_by→,
  In-sort_by←,
}
use task_api.User.Entity.{Session}
use task_api.User.Memory.{Store, belongs_to, earlier, evict, create_session}
use task_api.User.Memory.Sessions.{
  IsKeyed, is_spared, values-evict, none_spared, victims_not_spared, insert-IsKeyed,
}
use task_api.User.Memory.Eviction.{
  earlier-IsStrictOrder, lookup-evict, In-of-any, any-of-In, IsOrdered-append, lookup_of_In,
  hash_of_lookup,
}

-- The sessions with the new one, the user's among them, and the ones to evict.
module _ (d : Dict Session) (u : String) (max_sessions : ℕ) where
  abbrev mine : List Session
  mine = select (belongs_to u) (values d)

  abbrev victims : List Session
  victims = take (length mine - max_sessions) (sort_by earlier mine)

  abbrev kept : Dict Session
  kept = if leb (length mine) max_sessions then d else evict victims d

  -- The rest of the user's sessions, in order.
  abbrev rest : List Session
  rest = drop (length mine - max_sessions) (sort_by earlier mine)

  sorted : victims ++ rest ≡ sort_by earlier mine
  sorted = take-append-drop (length mine - max_sessions) (sort_by earlier mine)

  spared_count : length (select (is_spared victims) mine) ≤ max_sessions
  spared_count =
      let count : List Session → ℕ = λ ss. length (select (is_spared victims) ss) in
      let whole : count (victims ++ rest) ≡ count mine =
        ap count sorted ∙ length-select-sort_by earlier (is_spared victims) mine in
      omega (
        arith,
        whole,
        length-select-append (is_spared victims) victims rest,
        none_spared victims victims (victims_not_spared victims),
        length-select (is_spared victims) rest,
        length-drop (length mine - max_sessions) (sort_by earlier mine),
        length-sort_by earlier mine,
      )

  values_left :
      IsKeyed d → select (belongs_to u) (values (evict victims d)) ≡ select (is_spared victims) mine
  values_left keyed =
      ap (select (belongs_to u)) (values-evict victims d keyed)
      ∙ select-select_comm (belongs_to u) (is_spared victims) (values d)

  kept_bound : IsKeyed d → length (select (belongs_to u) (values kept)) ≤ max_sessions
  kept_bound keyed = elim (Bool-cases (leb (length mine) max_sessions)) [
    | inl few ↦ rw few (leb→le (length mine) max_sessions few)
    | inr many ↦ rw (many, values_left keyed) spared_count
  ]

  victim_is_mine : (v : Session) → In v victims → In v (values d) × (belongs_to u v ≡ true)
  victim_is_mine v h =
      In-select→ (belongs_to u) v (values d)
        (In-sort_by→ earlier v mine (subst (In v) sorted (In-append_left v victims rest h)))

  -- A session that is gone was a victim.
  gone_victim :
      (k : String) (a : Session)
      → IsKeyed d
      → HasUniqueKeys d
      → lookup k d ≡ some a
      → any (λ v. str_eq v.token_hash k) victims ≡ true
      → In a victims
  gone_victim k a keyed unique there h =
      let (v, i, same) = In-of-any k victims h in
      let stored : lookup k d ≡ some v =
        rw (sym same) (lookup_of_In v d unique keyed (victim_is_mine v i).0) in
      let e : a ≡ v = ground (arith, stored, there) in rw e i

  -- A session of the user that stays is among the rest.
  stays_rest :
      (j : String) (b : Session)
      → IsKeyed d
      → lookup j d ≡ some b
      → any (λ v. str_eq v.token_hash j) victims ≡ false
      → b.user_id ≡ u
      → In b rest
  stays_rest j b keyed there h hers =
      let hash = hash_of_lookup j b d keyed there in
      let in_mine =
        In-select← (belongs_to u) b (values d) (In-values_of_lookup j b d there)
          ((str_eq_iff b.user_id u).1 hers) in
      let i = subst (In b) (sym sorted) (In-sort_by← earlier b mine in_mine) in
      elim (In-append b victims rest i) [
        | inl v ↦ ground (arith, any-of-In b victims v, hash)
        | inr r ↦ r
      ]

  -- A victim is no later than a session that stays.
  evicted_earlier :
      (k j : String) (a b : Session)
      → IsKeyed d
      → HasUniqueKeys d
      → lookup k d ≡ some a
      → lookup k kept ≡ none
      → lookup j kept ≡ some b
      → b.user_id ≡ u
      → earlier b a ≡ false
  evicted_earlier k j a b keyed unique there gone stays hers =
      elim (Bool-cases (leb (length mine) max_sessions)) [
        | inl few ↦ ground arith
        | inr many ↦
            let lost : lookup k (evict victims d) ≡ none = rw many at gone in
            let left : lookup j (evict victims d) ≡ some b = rw many at stays in
            elim (Bool-cases (any (λ v. str_eq v.token_hash k) victims)) [
              | inr x ↦ ground (arith, lookup-evict k victims d)
              | inl x ↦ elim (Bool-cases (any (λ v. str_eq v.token_hash j) victims)) [
                | inl y ↦ ground (arith, lookup-evict j victims d)
                | inr y ↦
                    let stored : lookup j d ≡ some b = ground (arith, lookup-evict j victims d) in
                    IsOrdered-append earlier a b victims rest
                      (subst (IsOrdered earlier) (sym sorted)
                        (sort_by-IsOrdered earlier-IsStrictOrder mine))
                      (gone_victim k a keyed unique there x) (stays_rest j b keyed stored y hers)
              ]
            ]
      ]

  others_stay :
      (k : String) (a : Session)
      → IsKeyed d
      → HasUniqueKeys d
      → lookup k d ≡ some a
      → a.user_id ≢ u
      → lookup k kept ≡ some a
  others_stay k a keyed unique there other = elim (Bool-cases (leb (length mine) max_sessions)) [
    | inl few ↦ rw few there
    | inr many ↦ rw many (elim (Bool-cases (any (λ v. str_eq v.token_hash k) victims)) [
      | inl x ↦ absurd (
          other (
            (str_eq_iff a.user_id u).0 (victim_is_mine a (gone_victim k a keyed unique there x)).1))
      | inr x ↦ ground (arith, lookup-evict k victims d)
    ])
  ]

  kept_unless_many : (kept ≡ d) ⊎ (max_sessions < length mine)
  kept_unless_many = elim (Bool-cases (leb (length mine) max_sessions)) [
    | inl few ↦ inl (rw few refl)
    | inr many ↦ inr (ground arith)
  ]

  same_or_gone : (k : String) → (lookup k kept ≡ lookup k d) ⊎ (lookup k kept ≡ none)
  same_or_gone k = elim (Bool-cases (leb (length mine) max_sessions)) [
    | inl few ↦ inl (rw few refl)
    | inr many ↦ rw many (ground (arith, lookup-evict k victims d))
  ]

  none_stays : (k : String) → lookup k d ≡ none → lookup k kept ≡ none
  none_stays k gone = elim (Bool-cases (leb (length mine) max_sessions)) [
    | inl few ↦ rw few gone
    | inr many ↦ rw many (ground (arith, lookup-evict k victims d))
  ]

after_login : Session → ℕ → Store → Dict Session
after_login s max_sessions store =
    kept (insert s.token_hash s store.sessions) s.user_id max_sessions

create_session-after :
    (s : Session) (max_sessions : ℕ) (store : Store)
    → (create_session none s max_sessions store).1.sessions ≡ after_login s max_sessions store
unfolding create_session after_login
create_session-after s max_sessions store = refl

-- In a table that lists no hash twice and has every session under the hash of its token, a login
-- with a live context leaves its user at most the allowed number of sessions. Every entry is as it
-- was, but for the new session's own hash and for sessions of its user that are gone; and nothing is
-- evicted unless the user would have more sessions than allowed with the new one.
pub create_session_bounded :
    (s : Session) (max_sessions : ℕ) (store : Store)
    → HasUniqueKeys store.sessions
    → IsKeyed store.sessions
    → let after = (create_session none s max_sessions store).1.sessions in
      (length (select (belongs_to s.user_id) (values after)) ≤ max_sessions)
      × ((k : String)
          → (lookup k after ≡ lookup k store.sessions)
            ⊎ (k ≡ s.token_hash)
            ⊎ ((a : Session) × (lookup k store.sessions ≡ some a)
                × (a.user_id ≡ s.user_id)
                × (lookup k after ≡ none)))
      × ((after ≡ insert s.token_hash s store.sessions)
          ⊎ (max_sessions
              < length
                  (select (belongs_to s.user_id) (values (insert s.token_hash s store.sessions)))))
unfolding after_login
create_session_bounded s max_sessions store unique keyed =
    let d = insert s.token_hash s store.sessions in
    let keyed' = insert-IsKeyed s store.sessions keyed in
    let unique' = insert-HasUniqueKeys s.token_hash s store.sessions unique in
    rw (create_session-after s max_sessions store) (
      kept_bound d s.user_id max_sessions keyed',
      λ k. elim (str_eq-cases k s.token_hash) [
        | inl e ↦ inr (inl e)
        | inr e ↦
            let same : lookup k d ≡ lookup k store.sessions =
              ground (arith, lookup-insert k s.token_hash s store.sessions) in
            elim (Option-cases (lookup k store.sessions)) [
              | inl gone ↦ inl (none_stays d s.user_id max_sessions k (same ∙ gone) ∙ sym gone)
              | inr (a, there) ↦ elim (str_eq-cases a.user_id s.user_id) [
                | inl hers ↦ elim (same_or_gone d s.user_id max_sessions k) [
                  | inl stays ↦ inl (stays ∙ same)
                  | inr gone ↦ inr (inr (a, there, hers, gone))
                ]
                | inr other ↦ inl (
                    others_stay d s.user_id max_sessions k a keyed' unique' (same ∙ there)
                      (λ f. cc ((str_eq_iff a.user_id s.user_id).1 f, other))
                    ∙ sym there)
              ]
            ]
      ],
      kept_unless_many d s.user_id max_sessions,
    )

-- In a table that lists no hash twice and has every session under the hash of its token, a login
-- with a live context evicts the oldest sessions of its user: of two
-- sessions that were stored or come with it, of which one is gone afterwards and the other, a
-- session of the user, is left, the first is the user's too and was not created later.
pub create_session_evicts_oldest :
    (s : Session) (max_sessions : ℕ) (store : Store) (k j : String) (a b : Session)
    → HasUniqueKeys store.sessions
    → IsKeyed store.sessions
    → let after = (create_session none s max_sessions store).1.sessions in
      lookup k (insert s.token_hash s store.sessions) ≡ some a
      → lookup k after ≡ none
      → lookup j after ≡ some b
      → b.user_id ≡ s.user_id
      → (a.user_id ≡ s.user_id) × (a.created_at ≤ b.created_at)
unfolding after_login
create_session_evicts_oldest s max_sessions store k j a b unique keyed there gone stays hers =
    let d = insert s.token_hash s store.sessions in
    let keyed' = insert-IsKeyed s store.sessions keyed in
    let unique' = insert-HasUniqueKeys s.token_hash s store.sessions unique in
    let gone' : lookup k (kept d s.user_id max_sessions) ≡ none =
      rw (create_session-after s max_sessions store) at gone in
    let stays' : lookup j (kept d s.user_id max_sessions) ≡ some b =
      rw (create_session-after s max_sessions store) at stays in
    (
      elim (str_eq-cases a.user_id s.user_id) [
        | inl e ↦ e
        | inr e ↦ ground (
          arith,
          str_eq_iff a.user_id s.user_id,
          others_stay d s.user_id max_sessions k a keyed' unique' there,
        )
      ],
      ground (
        arith,
        evicted_earlier d s.user_id max_sessions k j a b keyed' unique' there gone' stays' hers,
      ),
    )
