-- ===== src/Realtime/Frames/Bounds.antt =====
-- The buffer never outgrows its capacity, holds each index once, and accounts for every frame.
use robolineage.Prelude.{
  ℕ, ◌+◌, ◌-◌, ◌≤◌, ◌≡◌, ◌≢◌, refl, List, [], ◌∷◌, ◌++◌, if◌then◌else◌, length, length-append,
  is_some, sym, arith,
}
use robolineage.Realtime.Frames.{Buffer, lookup, without, evict, put, get}

module _ {ℓ} {A : Type ℓ} where
  -- The index stands in none of the frames.
  abbrev pub Absent : ℕ → List (ℕ × A) → Type 0
  Absent i [] = Unit
  Absent i ((j, f) ∷ rest) = (j ≢ i) × Absent i rest

  abbrev pub Distinct : List (ℕ × A) → Type 0
  Distinct [] = Unit
  Distinct ((j, f) ∷ rest) = Absent j rest × Distinct rest

  pub record IsValid (b : Buffer A) : Type 0 where
    pub room : 1 ≤ b.capacity
    pub bounded : length b.frames ≤ b.capacity
    pub distinct : Distinct b.frames

  Absent-without : (i j : ℕ) (l : List (ℕ × A)) → Absent i l → Absent i (without j l)
  unfolding without
  Absent-without i j [] h = tt
  Absent-without i j ((k, f) ∷ rest) h = ground (arith, Absent-without i j rest h.1)

  pub Absent-self : (i : ℕ) (l : List (ℕ × A)) → Distinct l → Absent i (without i l)
  unfolding without
  Absent-self i [] h = tt
  Absent-self i ((k, f) ∷ rest) h = ground (arith, Absent-self i rest h.1)

  Distinct-without : (j : ℕ) (l : List (ℕ × A)) → Distinct l → Distinct (without j l)
  unfolding without
  Distinct-without j [] h = tt
  Distinct-without j ((k, f) ∷ rest) h =
      ground (arith, Distinct-without j rest h.1, Absent-without k j rest h.0)

  Absent-snoc :
      (i j : ℕ) (f : A) (l : List (ℕ × A)) → Absent j l → i ≢ j → Absent j (l ++ (i, f) ∷ [])
  Absent-snoc i j f [] a n = (n, tt)
  Absent-snoc i j f ((k, g) ∷ rest) a n = (a.0, Absent-snoc i j f rest a.1 n)

  pub Distinct-snoc :
      (i : ℕ) (f : A) (l : List (ℕ × A)) → Absent i l → Distinct l → Distinct (l ++ (i, f) ∷ [])
  Distinct-snoc i f [] a d = (tt, tt)
  Distinct-snoc i f ((j, g) ∷ rest) a d =
      (Absent-snoc i j f rest d.0 (λ e. a.0 (sym e)), Distinct-snoc i f rest a.1 d.1)

  pub evict_room :
      (c : ℕ) (l : List (ℕ × A))
      → (length (evict c l).0 ≤ c)
        × (length (evict c l).0 + (evict c l).1 ≡ length l)
        × ((evict c l).1 ≡ length l - c)
  unfolding evict
  evict_room c [] = omega arith
  evict_room c (x ∷ rest) = ground (arith, evict_room c rest)

  Distinct-evict : (c : ℕ) (l : List (ℕ × A)) → Distinct l → Distinct (evict c l).0
  unfolding evict
  Distinct-evict c [] h = tt
  Distinct-evict c (x ∷ rest) h = ground (arith, Distinct-evict c rest h.1)

  pub length-snoc : (i : ℕ) (f : A) (l : List (ℕ × A)) → length (l ++ (i, f) ∷ []) ≡ length l + 1
  length-snoc i f l = length-append l ((i, f) ∷ [])

  pub length-without :
      (i : ℕ) (l : List (ℕ × A))
      → length (without i l) + (if is_some (lookup i l) then 1 else 0) ≡ length l
  unfolding without lookup
  length-without i [] = omega arith
  length-without i ((j, f) ∷ rest) = ground (arith, length-without i rest)

  -- From a valid buffer `put` leaves it within its capacity and with each index once, drops at most one
  -- frame, counts what it drops, and keeps every other frame: what stays and what is dropped is what
  -- was there, and one more if the index is new.
  pub put-IsValid :
      (i : ℕ) (f : A) (b : Buffer A)
      → IsValid b
      → IsValid (put i f b).1
        × ((put i f b).0 ≤ 1)
        × ((put i f b).1.dropped ≡ b.dropped + (put i f b).0)
        × (length (put i f b).1.frames + (put i f b).0
            ≡ length b.frames + (if is_some (get i b) then 0 else 1))
  unfolding put get
  put-IsValid i f b v =
      let l = without i b.frames in
      let m = l ++ (i, f) ∷ [] in
      let gone = Absent-self i b.frames v.distinct in
      let count = length-without i b.frames in
      let room = evict_room b.capacity m in
      let size = length-snoc i f l in
      (
        record {
          room = v.room;
          bounded = room.0;
          distinct =
              Distinct-evict b.capacity m
                (Distinct-snoc i f l gone (Distinct-without i b.frames v.distinct));
        },
        ground arith,
        refl,
        ground arith,
      )
