-- ===== src/Realtime/Frames/Window.antt =====
-- What the buffer holds: the lookups after `put`, and the window of the newest frames.
use mathlib.Core.List.{append-nil, append_assoc}
use native.Mathlib.Nat.{zero-sub}
use robolineage.Prelude.{
  ltb→lt, ℕ, suc, ◌+◌, ◌-◌, ◌≤◌, ◌<◌, ◌≡◌, ◌≢◌, refl, sym, ap, max, Bool, true, false, Option, none,
  some, List, [], ◌∷◌, ◌++◌, ◌∙◌, if◌then◌else◌, ltb, ◌==◌, length, length-append, drop, is_some,
  arith, inl, inr, Bool-cases, Option-cases,
}
use robolineage.Realtime.Frames.{Buffer, create, lookup, without, evict, put, get}
use robolineage.Realtime.Frames.Bounds.{
  Absent, Distinct, IsValid, Absent-self, evict_room, length-snoc, length-without,
}

abbrev pub is_index : Option ℕ → ℕ → Bool
is_index none j = false
is_index (some k) j = k == j

sub_over : (c n : ℕ) → c < suc n → suc n - c ≡ suc (n - c)
sub_over c n h = omega arith

sub_fits : (c n : ℕ) → ltb c n ≡ false → n - c ≡ 0
sub_fits c n h = ground arith

module _ {ℓ} {A : Type ℓ} where
  -- The index that a `put` of `i` drops: the oldest, if `i` is new and the buffer is full.
  abbrev pub first_index : List (ℕ × A) → Option ℕ
  first_index [] = none
  first_index ((j, f) ∷ rest) = some j

  abbrev pub victim : ℕ → Buffer A → Option ℕ
  victim i b =
      if is_some (get i b)
      then none
      else if length b.frames == b.capacity
      then first_index b.frames
      else none

  lookup-Absent : (i : ℕ) (l : List (ℕ × A)) → Absent i l → lookup i l ≡ none
  unfolding lookup
  lookup-Absent i [] h = refl
  lookup-Absent i ((j, f) ∷ rest) h = ground (arith, lookup-Absent i rest h.1)

  lookup-without :
      (i j : ℕ) (l : List (ℕ × A))
      → Distinct l
      → lookup j (without i l) ≡ (if i == j then none else lookup j l)
  unfolding lookup without
  lookup-without i j [] d = ground arith
  lookup-without i j ((k, f) ∷ rest) d =
      ground (arith, lookup-without i j rest d.1, lookup-Absent k rest d.0)

  lookup-snoc :
      (i j : ℕ) (f : A) (l : List (ℕ × A))
      → lookup i l ≡ none
      → lookup j (l ++ (i, f) ∷ []) ≡ (if i == j then some f else lookup j l)
  unfolding lookup
  lookup-snoc i j f [] h = refl
  lookup-snoc i j f ((k, g) ∷ rest) h = ground (arith, lookup-snoc i j f rest)

  without_new : (i : ℕ) (l : List (ℕ × A)) → lookup i l ≡ none → without i l ≡ l
  unfolding lookup without
  without_new i [] h = refl
  without_new i ((k, g) ∷ rest) h = ground (arith, without_new i rest)

  evict_fits : (c : ℕ) (l : List (ℕ × A)) → length l ≤ c → evict c l ≡ (l, 0)
  unfolding evict
  evict_fits c [] h = refl
  evict_fits c (x ∷ rest) h = ground arith

  evict_one : (c : ℕ) (x : ℕ × A) (l : List (ℕ × A)) → length l ≡ c → evict c (x ∷ l) ≡ (l, 1)
  unfolding evict
  evict_one c x l h = ground (arith, evict_fits c l)

  put_old :
      (c i j : ℕ) (f : A) (l : List (ℕ × A))
      → Distinct l
      → length l ≤ c
      → is_some (lookup i l) ≡ true
      → lookup j (evict c (without i l ++ (i, f) ∷ [])).0 ≡ (if i == j then some f else lookup j l)
  put_old c i j f l d h old =
      let gone = lookup-Absent i (without i l) (Absent-self i l d) in
      ground (
        arith,
        length-without i l,
        length-snoc i f (without i l),
        evict_fits c (without i l ++ (i, f) ∷ []),
        lookup-snoc i j f (without i l),
        lookup-without i j l d,
      )

  put_room :
      (c i j : ℕ) (f : A) (l : List (ℕ × A))
      → length l < c
      → lookup i l ≡ none
      → lookup j (evict c (l ++ (i, f) ∷ [])).0 ≡ (if i == j then some f else lookup j l)
  put_room c i j f l h new =
      ground (arith, length-snoc i f l, evict_fits c (l ++ (i, f) ∷ []), lookup-snoc i j f l new)

  put_full :
      (c i j k : ℕ) (f g : A) (l : List (ℕ × A))
      → Distinct ((k, g) ∷ l)
      → suc (length l) ≡ c
      → lookup i ((k, g) ∷ l) ≡ none
      → lookup j (evict c ((k, g) ∷ (l ++ (i, f) ∷ []))).0
        ≡ (if i == j then some f else if k == j then none else lookup j ((k, g) ∷ l))
  unfolding lookup
  put_full c i j k f g l d h new = ground (
    arith,
    length-snoc i f l,
    evict_one c (k, g) (l ++ (i, f) ∷ []),
    lookup-snoc i j f l,
    lookup-Absent k l d.0,
  )

  put_new :
      (c i j : ℕ) (f : A) (l : List (ℕ × A))
      → Distinct l
      → 1 ≤ c
      → length l ≤ c
      → lookup i l ≡ none
      → lookup j (evict c (l ++ (i, f) ∷ [])).0 ≡ (
          if i == j
          then some f
          else if is_index (if length l == c then first_index l else none) j
          then none
          else lookup j l)
  put_new c i j f [] d room fits new = ground (arith, put_room c i j f [])
  put_new c i j f ((k, g) ∷ l) d room fits new = elim (Bool-cases (length ((k, g) ∷ l) == c)) [
    | inl full ↦ rw full (put_full c i j k f g l d (ground arith) new)
    | inr other ↦ rw other (put_room c i j f ((k, g) ∷ l) (ground arith) new)
  ]

  -- After a `put` into a valid buffer the new frame is found under its index, the dropped index is
  -- not found, and every other lookup is as before.
  pub get-put :
      (i j : ℕ) (f : A) (b : Buffer A)
      → IsValid b
      → get j (put i f b).1
        ≡ (if i == j then some f else if is_index (victim i b) j then none else get j b)
  unfolding put get
  get-put i j f b v = elim (Option-cases (lookup i b.frames)) [
    | inl new ↦ ground (
      arith,
      without_new i b.frames new,
      put_new b.capacity i j f b.frames v.distinct v.room v.bounded new,
    )
    | inr (g, old) ↦ ground (arith, put_old b.capacity i j f b.frames v.distinct v.bounded)
  ]

  abbrev pub put_all : List (ℕ × A) → Buffer A → Buffer A
  put_all [] b = b
  put_all ((i, f) ∷ rest) b = put_all rest (put i f b).1

  evict-drop : (c : ℕ) (l : List (ℕ × A)) → (evict c l).0 ≡ drop (length l - c) l
  unfolding evict
  evict-drop c [] = rw zero-sub
  evict-drop c (x ∷ rest) = elim (Bool-cases (ltb c (length (x ∷ rest)))) [
    | inl over ↦ rw (over, sub_over c (length rest) (ltb→lt _ _ over)) (evict-drop c rest)
    | inr fits ↦ rw (fits, sub_fits c (length (x ∷ rest)) fits)
  ]

  evict-append :
      (c : ℕ) (m r : List (ℕ × A)) → (evict c ((evict c m).0 ++ r)).0 ≡ (evict c (m ++ r)).0
  unfolding evict
  evict-append c [] r = refl
  evict-append c (x ∷ m) r = elim (Bool-cases (ltb c (length (x ∷ m)))) [
    | inl over ↦ rw (over, longer over) (evict-append c m r)
    | inr fits ↦ rw fits
  ]
    where
      longer : ltb c (length (x ∷ m)) ≡ true → ltb c (length (x ∷ (m ++ r))) ≡ true
      longer over = ground (arith, length-append m r)

  Distinct-evict-append :
      (c : ℕ) (m r : List (ℕ × A)) → Distinct (m ++ r) → Distinct ((evict c m).0 ++ r)
  unfolding evict
  Distinct-evict-append c [] r d = d
  Distinct-evict-append c (x ∷ m) r d = elim (Bool-cases (ltb c (length (x ∷ m)))) [
    | inl over ↦ rw over (Distinct-evict-append c m r d.1)
    | inr fits ↦ rw fits d
  ]

  Absent-middle : (i j : ℕ) (f : A) (l r : List (ℕ × A)) → Absent i (l ++ (j, f) ∷ r) → i ≢ j
  Absent-middle i j f [] r h = λ e. h.0 (sym e)
  Absent-middle i j f (x ∷ l) r h = Absent-middle i j f l r h.1

  Distinct-middle : (i : ℕ) (f : A) (l r : List (ℕ × A)) → Distinct (l ++ (i, f) ∷ r) → Absent i l
  Distinct-middle i f [] r d = tt
  Distinct-middle i f ((j, g) ∷ l) r d = (Absent-middle j i f l r d.0, Distinct-middle i f l r d.1)

  snoc-append : (l : List (ℕ × A)) (x : ℕ × A) (r : List (ℕ × A)) → (l ++ x ∷ []) ++ r ≡ l ++ x ∷ r
  snoc-append l x r = append_assoc l (x ∷ []) r

  frames-put_all :
      (rest : List (ℕ × A)) (b : Buffer A)
      → length b.frames ≤ b.capacity
      → Distinct (b.frames ++ rest)
      → ((put_all rest b).frames ≡ (evict b.capacity (b.frames ++ rest)).0)
        × ((put_all rest b).dropped + length (put_all rest b).frames
            ≡ b.dropped + length (b.frames ++ rest))
  unfolding put
  frames-put_all [] b fits d = rw (append-nil, evict_fits b.capacity b.frames fits) (refl, refl)
  frames-put_all ((i, f) ∷ rest) b fits d =
      let new = lookup-Absent i b.frames (Distinct-middle i f b.frames rest d) in
      let l = b.frames ++ (i, f) ∷ [] in
      let old = without_new i b.frames new in
      let c = b.capacity in
      let ih =
        frames-put_all rest (put i f b).1 (rw old (evict_room c l).0)
          (rw old (Distinct-evict-append c l rest (rw (snoc-append b.frames (i, f) rest) d))) in
      (
        ih.0
            ∙ rw old
                (evict-append c l rest ∙ ap (λ m. (evict c m).0) (snoc-append b.frames _ rest)),
        omega (
          arith,
          ih.1,
          length-append (put i f b).1.frames rest,
          length-append b.frames ((i, f) ∷ rest),
          evict_room c (without i b.frames ++ (i, f) ∷ []),
          length-snoc i f (without i b.frames),
          ap length old,
        ),
      )

  -- A new buffer that is given frames under pairwise different indices holds exactly the newest of
  -- them, in order, as many as its capacity (at least 1), and has counted all the others as dropped.
  pub put_all-window :
      (capacity : ℕ) (frames : List (ℕ × A))
      → Distinct frames
      → let b = put_all frames (create capacity) in
        (b.frames ≡ drop (length frames - max 1 capacity) frames)
        × (b.dropped + length b.frames ≡ length frames)
  unfolding create
  put_all-window capacity frames d =
      let h = frames-put_all frames (create capacity) (omega arith) d in
      (h.0 ∙ evict-drop (max 1 capacity) frames, omega (arith, h.1))
