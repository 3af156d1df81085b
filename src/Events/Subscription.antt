-- ===== src/Events/Subscription.antt =====
-- core/event_manager.cpp: the ids of listeners.
use vxcore.Prelude.Assoc.{put, lookup-put, All-put, Assoc, lookup}
use vxcore.Prelude.{
  subst, ◌≤◌, ◌==◌, eq_refl, All-map, ◌%◌, ◌+◌, ap, eq_iff, inr, Bool-cases, str_eq, inl, refl,
  if◌then◌else◌, Option-cases, arith, [], ◌∷◌, ◌^◌, some, none, ◌⊎◌, ◌≡◌, ◌<◌, ◌++◌, String, List,
  All, ℕ,
}
use vxcore.Events.{
  new_event_manager, snapshot, unsubscribe, listeners_of, subscribe, erase_in, erase_listener,
  EventManager, Listener,
}

module _ {Callback : Type 0} where
  abbrev pub IsBelow : ℕ → List (Listener Callback) → Type 0
  IsBelow n ls = All (λ l. l.id < n) ls

  -- The listeners with an id, of one event and of all.
  abbrev pub count_in : ℕ → List (Listener Callback) → ℕ
  count_in id [] = 0
  count_in id (l ∷ ls) = (if l.id == id then 1 else 0) + count_in id ls

  abbrev pub count_id : ℕ → Assoc (List (Listener Callback)) → ℕ
  count_id id [] = 0
  count_id id ((event_name, ls) ∷ m) = count_in id ls + count_id id m

  -- Every id was given out, so that it is below the next one, and to one listener at most, of all
  -- events. The ids have not come round.
  abbrev pub IsWellFormed : EventManager Callback → Type 0
  IsWellFormed m =
      All (λ e. IsBelow m.next_id (e.1)) m.listeners
      × (m.next_id < 2 ^ 64)
      × ((id : ℕ) → count_id id m.listeners ≤ 1)

  count_in-above : (id : ℕ) (ls : List (Listener Callback)) → IsBelow id ls → count_in id ls ≡ 0
  count_in-above id [] b = refl
  count_in-above id (l ∷ ls) b = ground (arith, b, count_in-above id ls (b.1))

  count_id-above :
      (id : ℕ) (m : Assoc (List (Listener Callback)))
      → All (λ e. IsBelow id (e.1)) m
      → count_id id m ≡ 0
  count_id-above id [] b = refl
  count_id-above id ((k, ls) ∷ m) b =
      omega (arith, count_in-above id ls (b.0), count_id-above id m (b.1))

  count_in-append :
      (id n : ℕ) (cb : Callback) (ls : List (Listener Callback))
      → count_in id (ls ++ record { id = n; callback = cb } ∷ [])
        ≡ count_in id ls + (if n == id then 1 else 0)
  count_in-append id n cb [] = omega arith
  count_in-append id n cb (l ∷ ls) = ground (arith, count_in-append id n cb ls)

  count_id-put :
      (id : ℕ) (e : String) (ls : List (Listener Callback)) (m : Assoc (List (Listener Callback)))
      → count_id id (put e ls m) + count_in id (elim (lookup e m) [ none ↦ [] | some ls' ↦ ls' ])
        ≡ count_id id m + count_in id ls
  unfolding put lookup
  count_id-put id e ls [] = omega arith
  count_id-put id e ls ((k, v) ∷ m) = ground (arith, count_id-put id e ls m)

  erase_listener-count :
      (id n : ℕ) (ls ls' : List (Listener Callback))
      → erase_listener n ls ≡ some ls'
      → count_in id ls' ≤ count_in id ls
  unfolding erase_listener
  erase_listener-count id n [] ls' e = ground (arith, e)
  erase_listener-count id n (l ∷ ls) ls' e = elim (Option-cases (erase_listener n ls)) [
    | inl missing ↦ ground (arith, e, missing)
    | inr (rest, found) ↦ ground (arith, e, found, erase_listener-count id n ls rest found)
  ]

  erase_in-count :
      (id n : ℕ) (m : Assoc (List (Listener Callback))) → count_id id (erase_in n m) ≤ count_id id m
  unfolding erase_in
  erase_in-count id n [] = omega arith
  erase_in-count id n ((k, v) ∷ m) = elim (Option-cases (erase_listener n v)) [
    | inl missing ↦ ground (arith, missing, erase_in-count id n m)
    | inr (rest, found) ↦ ground (arith, found, erase_listener-count id n v rest found)
  ]

  IsBelow-append :
      (n k : ℕ) (cb : Callback) (ls : List (Listener Callback))
      → n < k
      → IsBelow n ls
      → IsBelow k (ls ++ record { id = n; callback = cb } ∷ [])
  IsBelow-append n k cb [] h b = (h, tt)
  IsBelow-append n k cb (l ∷ ls) h b = (omega (arith, h, b.0), IsBelow-append n k cb ls h (b.1))

  erase_listener-IsBelow :
      (n id : ℕ) (ls ls' : List (Listener Callback))
      → erase_listener id ls ≡ some ls'
      → IsBelow n ls
      → IsBelow n ls'
  unfolding erase_listener
  erase_listener-IsBelow n id [] ls' e b = ground (arith, e)
  erase_listener-IsBelow n id (l ∷ ls) ls' e b = elim (Option-cases (erase_listener id ls)) [
    | inl none_left ↦ ground (arith, e, b, none_left)
    | inr (rest, found) ↦
        ground (arith, e, b, found, erase_listener-IsBelow n id ls rest found (b.1))
  ]

  erase_listener-none :
      (id : ℕ) (ls : List (Listener Callback)) → IsBelow id ls → erase_listener id ls ≡ none
  unfolding erase_listener
  erase_listener-none id [] b = refl
  erase_listener-none id (l ∷ ls) b = ground (arith, erase_listener-none id ls (b.1), b.0)

  erase_listener-last :
      (id : ℕ) (cb : Callback) (ls : List (Listener Callback))
      → IsBelow id ls
      → erase_listener id (ls ++ record { id = id; callback = cb } ∷ []) ≡ some ls
  unfolding erase_listener
  erase_listener-last id cb [] b = ground arith
  erase_listener-last id cb (l ∷ ls) b = ground (arith, erase_listener-last id cb ls (b.1), b.0)

  -- An entry has older listeners only, or is that of the event `e` with the new one behind them.
  abbrev IsOlder :
      ℕ → Callback → String → List (Listener Callback) → String × List (Listener Callback) → Type 0
  IsOlder id cb e ls entry =
      IsBelow id (entry.1)
      ⊎ ((entry.0 ≡ e) × (entry.1 ≡ ls ++ record { id = id; callback = cb } ∷ []))

  lookup-erase_in :
      (id : ℕ) (cb : Callback) (e name : String) (ls : List (Listener Callback))
      → (m : Assoc (List (Listener Callback))) → IsBelow id ls
      → All (IsOlder id cb e ls) m
      → lookup e m ≡ some (ls ++ record { id = id; callback = cb } ∷ [])
      → lookup name (erase_in id m) ≡ (if str_eq e name then some ls else lookup name m)
  unfolding lookup erase_in
  lookup-erase_in id cb e name ls [] b a h = ground (arith, h)
  lookup-erase_in id cb e name ls ((k, v) ∷ m) b (inl older, a) h = elim (Bool-cases (str_eq k e)) [
    | inl here ↦
        let new : v ≡ ls ++ record { id = id; callback = cb } ∷ [] = ground (arith, h, here) in
        absurd (
          ground (
            arith,
            erase_listener-none id v older,
            ap (erase_listener id) new,
            erase_listener-last id cb ls b,
          ))
    | inr other ↦ ground (
      arith,
      other,
      h,
      erase_listener-none id v older,
      lookup-erase_in id cb e name ls m b a,
      eq_iff k e,
      eq_iff k name,
      eq_iff e name,
    )
  ]
  lookup-erase_in id cb e name ls ((k, v) ∷ m) b (inr (same, new), a) h = ground (
    arith,
    new,
    erase_listener-last id cb ls b,
    ap (λ w. erase_listener id w) new,
    eq_iff k name,
    eq_iff e name,
    same,
  )

  lookup-IsBelow :
      (n : ℕ) (e : String) (m : Assoc (List (Listener Callback)))
      → All (λ entry. IsBelow n (entry.1)) m
      → IsBelow n (elim (lookup e m) [ none ↦ [] | some ls ↦ ls ])
  unfolding lookup
  lookup-IsBelow n e [] a = tt
  lookup-IsBelow n e ((k, v) ∷ m) a = ground (arith, lookup-IsBelow n e m (a.1), a)

  -- Where no id was given out twice and the ids have not come round: ending a subscription that was
  -- just made, with the id it returned, gives every event the callbacks that it had before, in their
  -- order.
  pub unsubscribe-subscribe :
      (e name : String) (cb : Callback) (m : EventManager Callback)
      → IsWellFormed m
      → let (id, m') = subscribe e cb m in snapshot name (unsubscribe id m') ≡ snapshot name m
  unfolding subscribe unsubscribe snapshot listeners_of
  unsubscribe-subscribe e name cb m wf =
      let ls = listeners_of e m in
      let n = m.next_id in
      let new = ls ++ record { id = n; callback = cb } ∷ [] in
      let below = lookup-IsBelow n e m.listeners (wf.0) in
      let parts =
        All-put (IsOlder n cb e ls) e new m.listeners (inr (refl, refl))
          (All-map (λ entry b. inl b) m.listeners (wf.0)) in
      let there = lookup-put e e new m.listeners in
      let placed : lookup e (put e new m.listeners) ≡ some new = ground (arith, there, eq_refl e) in
      ground (
        arith,
        lookup-erase_in n cb e name ls (put e new m.listeners) below parts placed,
        lookup-put e name new m.listeners,
        eq_iff e name,
      )

  -- A new id is one that no listener has.
  subscribe-IsWellFormed :
      (e : String) (cb : Callback) (m : EventManager Callback)
      → m.next_id + 1 < 2 ^ 64
      → IsWellFormed m
      → IsWellFormed (subscribe e cb m).1
  unfolding subscribe listeners_of
  subscribe-IsWellFormed e cb m k wf =
      let n = m.next_id in
      let grow : n + 1 ≡ (n + 1) % 2 ^ 64 = omega (arith, k) in
      let next : n < (n + 1) % 2 ^ 64 = omega (arith, k) in
      let new = listeners_of e m ++ record { id = n; callback = cb } ∷ [] in
      (
        All-put (λ entry. IsBelow ((n + 1) % 2 ^ 64) (entry.1)) e
            (listeners_of e m ++ record { id = n; callback = cb } ∷ []) m.listeners
            (IsBelow-append n ((n + 1) % 2 ^ 64) cb (listeners_of e m) next
              (lookup-IsBelow n e m.listeners (wf.0)))
            (All-map (λ entry b. All-map (λ l h. omega (arith, h, next)) (entry.1) b) m.listeners
              (wf.0)),
        omega arith,
        λ id. elim (Bool-cases (n == id)) [
          | inl own ↦
              let same : n ≡ id = ground (arith, own) in
              let fresh : count_id id m.listeners ≡ 0 =
                subst (λ i. count_id i m.listeners ≡ 0) same
                  (count_id-above n m.listeners (wf.0)) in
              ground (
                arith,
                own,
                fresh,
                count_id-put id e new m.listeners,
                count_in-append id n cb (listeners_of e m),
              )
          | inr other ↦ ground (
            arith,
            other,
            wf.2 id,
            count_id-put id e new m.listeners,
            count_in-append id n cb (listeners_of e m),
          )
        ],
      )

  erase_in-IsBelow :
      (n id : ℕ) (m : Assoc (List (Listener Callback)))
      → All (λ entry. IsBelow n (entry.1)) m
      → All (λ entry. IsBelow n (entry.1)) (erase_in id m)
  unfolding erase_in
  erase_in-IsBelow n id [] a = tt
  erase_in-IsBelow n id ((k, v) ∷ m) a = elim (Option-cases (erase_listener id v)) [
    | inl missing ↦ rw (All, missing) (a.0, erase_in-IsBelow n id m (a.1))
    | inr (rest, found) ↦ rw (All, found) (erase_listener-IsBelow n id v rest found (a.0), a.1)
  ]

  unsubscribe-IsWellFormed :
      (id : ℕ) (m : EventManager Callback) → IsWellFormed m → IsWellFormed (unsubscribe id m)
  unfolding unsubscribe
  unsubscribe-IsWellFormed id m wf = (
    erase_in-IsBelow m.next_id id m.listeners (wf.0),
    wf.1,
    λ i. omega (arith, erase_in-count i id m.listeners, wf.2 i),
  )

  -- What callers did with a manager, with at most 2^64 - 2 subscriptions, so that the next id is a
  -- new one.
  pub data Reachable : EventManager Callback → Type 0 where
    start : Reachable new_event_manager
    subscribes :
        (e : String) (cb : Callback) (m : EventManager Callback)
        → Reachable m
        → m.next_id + 1 < 2 ^ 64
        → Reachable (subscribe e cb m).1
    unsubscribes : (id : ℕ) (m : EventManager Callback) → Reachable m → Reachable (unsubscribe id m)

  -- After any subscriptions, at most 2^64 - 2 of them, and ends of subscriptions, no two listeners
  -- have one id, of whatever events they are, and the next id is above the id of every listener.
  pub Reachable-IsWellFormed : {m : EventManager Callback} → Reachable m → IsWellFormed m
  unfolding new_event_manager
  Reachable-IsWellFormed start = (tt, omega arith, λ id. omega arith)
  Reachable-IsWellFormed (subscribes e cb m r k) =
      subscribe-IsWellFormed e cb m k (Reachable-IsWellFormed r)
  Reachable-IsWellFormed (unsubscribes id m r) =
      unsubscribe-IsWellFormed id m (Reachable-IsWellFormed r)
