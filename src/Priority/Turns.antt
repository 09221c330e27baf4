-- ===== src/Priority/Turns.antt =====
-- Whose turn it is at the coordinator, over any sequence of actions.
use robolineage.Prelude.{
  ℕ, ◌≡◌, ◌≢◌, sym, ◌∙◌, refl, inl, inr, String, Bool, true, false, not, ◌&&◌, none, some, List, [],
  ◌∷◌, ◌++◌, if◌then◌else◌, str_eq, eq_iff, all, arith, Option-cases,
}
use robolineage.Priority.{
  registered, register, unregister, enter_online, remaining, exit_online, is_turn, online_join,
  online_try, online_release, wait_time, offline_join, offline_try, offline_stop, offline_release,
}
use robolineage.Priority.Calls.{
  World, Action, enter, exit, join, begin, finish, wait, admit, abandon, leave, perform, run,
  run-next, run-stuck,
}

-- The action takes the rollout off the order.
abbrev pub exits : String → Action → Bool
exits r (exit none now) = true
exits r (exit (some q) now) = str_eq q r
exits r a = false

abbrev pub begins : String → Action → Bool
begins r (begin q) = str_eq q r
begins r a = false

abbrev pub stays : String → List Action → Bool
stays r as_ = all (λ a. not (exits r a)) as_

-- The first rollout of the order that is a or b is a.
abbrev pub before : String → String → List String → Bool
before a b [] = false
before a b (q ∷ qs) =
    let rest = before a b qs in if str_eq q a then true else if str_eq q b then false else rest

registered-append :
    (r q : String) (l : List String) → registered r l ≡ true → registered r (l ++ q ∷ []) ≡ true
registered-append r q [] h = cc
registered-append r q (p ∷ ps) h = ground (arith, registered-append r q ps)

registered-unregister :
    (r q : String) (l : List String)
    → str_eq q r ≡ false
    → registered r l ≡ true
    → registered r (unregister q l) ≡ true
unfolding unregister
registered-unregister r q [] ne h = cc
registered-unregister r q (p ∷ ps) ne h =
    ground (arith, eq_iff p q, eq_iff p r, eq_iff q r, registered-unregister r q ps ne)

before-append :
    (a b q : String) (l : List String) → before a b l ≡ true → before a b (l ++ q ∷ []) ≡ true
before-append a b q [] h = cc
before-append a b q (p ∷ ps) h = ground (arith, before-append a b q ps)

before-unregister :
    (a b q : String) (l : List String)
    → str_eq q a ≡ false
    → before a b l ≡ true
    → before a b (unregister q l) ≡ true
unfolding unregister
before-unregister a b q [] ne h = cc
before-unregister a b q (p ∷ ps) ne h =
    ground (arith, eq_iff p q, eq_iff p a, eq_iff q a, before-unregister a b q ps ne)

is_turn-before :
    (a b : String) (l : List String) → a ≢ b → before a b l ≡ true → is_turn b l ≡ false
is_turn-before a b [] ne h = refl
is_turn-before a b (p ∷ ps) ne h = ground (arith, eq_iff p a, eq_iff p b)

-- What an action makes of the order.
abbrev ordered : Action → List String → List String
ordered (enter (some r)) l = register r l
ordered (exit o now) l = remaining o l
ordered (join r) l = register r l
ordered a l = l

abbrev order : World → List String
order w = w.coordinator.online_rollout_order

perform-ordered :
    (a : Action) (w w' : World) → perform a w ≡ some w' → order w' ≡ ordered a (order w)
unfolding perform enter_online exit_online online_join online_try online_release offline_join
    offline_try offline_stop offline_release
perform-ordered (enter none) w w' e = ground arith
perform-ordered (enter (some r)) w w' e = ground arith
perform-ordered (exit o now) w w' e = ground arith
perform-ordered (join r) w w' e = ground arith
perform-ordered (begin r) w w' e = ground arith
perform-ordered finish w w' e = ground arith
perform-ordered wait w w' e = ground arith
perform-ordered (admit quiet_period now) w w' e = ground arith
perform-ordered abandon w w' e = ground arith
perform-ordered leave w w' e = ground arith

-- A property of the order that every action but an exit of r keeps.
registered-ordered :
    (r : String) (a : Action) (l : List String)
    → not (exits r a) ≡ true
    → registered r l ≡ true
    → registered r (ordered a l) ≡ true
unfolding register remaining
registered-ordered r (enter (some q)) l ne h = ground (arith, registered-append r q l)
registered-ordered r (exit (some q) now) l ne h = registered-unregister r q l (ground arith) h
registered-ordered r (exit none now) l ne h = absurd (cc ne)
registered-ordered r (join q) l ne h = ground (arith, registered-append r q l)
registered-ordered r _ l ne h = h

before-ordered :
    (a b : String) (x : Action) (l : List String)
    → not (exits a x) ≡ true
    → before a b l ≡ true
    → before a b (ordered x l) ≡ true
unfolding register remaining
before-ordered a b (enter (some q)) l ne h = ground (arith, before-append a b q l)
before-ordered a b (exit (some q) now) l ne h = before-unregister a b q l (ground arith) h
before-ordered a b (exit none now) l ne h = absurd (cc ne)
before-ordered a b (join q) l ne h = ground (arith, before-append a b q l)
before-ordered a b _ l ne h = h

run-registered :
    (r : String) (as_ : List Action) (w w' : World)
    → stays r as_ ≡ true
    → registered r (order w) ≡ true
    → run as_ w ≡ some w'
    → registered r (order w') ≡ true
unfolding run
run-registered r [] w w' s h e = ground arith
run-registered r (a ∷ more) w w' s h e = elim (Option-cases (perform a w)) [
  | inl stuck ↦ absurd (cc (e, run-stuck a more w stuck))
  | inr (next, at) ↦
      run-registered r more next w' (ground arith)
        (rw (perform-ordered a w next at) (registered-ordered r a (order w) (ground arith) h))
        (sym (run-next a more w next at) ∙ e)
]

closed-registered :
    (r : String) (w : World) (quiet_period now : ℕ)
    → registered r (order w) ≡ true
    → perform (admit quiet_period now) w ≡ none
unfolding perform offline_try wait_time
closed-registered r w quiet_period now h = ground arith

last-registered : (r : String) (l : List String) → registered r (l ++ r ∷ []) ≡ true
last-registered r [] = ground (arith, eq_iff r r)
last-registered r (p ∷ ps) = ground (arith, last-registered r ps)

registered-register : (r : String) (l : List String) → registered r (register r l) ≡ true
unfolding register
registered-register r l = ground (arith, last-registered r l)

not-begins :
    (a b : String) (x : Action) (w next : World)
    → a ≢ b
    → before a b (order w) ≡ true
    → perform x w ≡ some next
    → not (begins b x) ≡ true
unfolding perform online_try
not-begins a b (begin q) w next ne h e =
    ground (arith, eq_iff q b, is_turn-before a b (order w) ne h)
not-begins a b _ w next ne h e = refl

-- Once an online slot of a rollout is asked for, no offline call is let through until the rollout
-- leaves, whether it had left before or not and whether its call has ended.
pub slot_blocks_offline :
    (r : String) (as_ : List Action) (w w' : World) (quiet_period now : ℕ)
    → stays r as_ ≡ true
    → run (join r ∷ as_) w ≡ some w'
    → perform (admit quiet_period now) w' ≡ none
unfolding perform online_join
slot_blocks_offline r as_ w w' quiet_period now s e =
    let next = record w { coordinator = online_join r w.coordinator } in
    closed-registered r w' quiet_period now (
      run-registered r as_ next w' s (registered-register r (order w))
        (sym (run-next (join r) as_ w next refl) ∙ e))

both : {p q : Bool} → p ≡ true → q ≡ true → (p && q) ≡ true
both h k = rw (h, k)

-- While a rollout that is registered ahead of another one does not leave, no online call of the
-- other one begins.
pub no_overtaking :
    (a b : String) (as_ : List Action) (w w' : World)
    → a ≢ b
    → stays a as_ ≡ true
    → before a b w.coordinator.online_rollout_order ≡ true
    → run as_ w ≡ some w'
    → all (λ x. not (begins b x)) as_ ≡ true
no_overtaking a b [] w w' ne s h e = refl
no_overtaking a b (x ∷ more) w w' ne s h e = elim (Option-cases (perform x w)) [
  | inl stuck ↦ absurd (cc (e, run-stuck x more w stuck))
  | inr (next, at) ↦ both (not-begins a b x w next ne h at) (
      no_overtaking a b more next w' ne (ground arith)
        (rw (perform-ordered x w next at) (before-ordered a b x (order w) (ground arith) h))
        (sym (run-next x more w next at) ∙ e))
]
