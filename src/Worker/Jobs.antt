-- ===== src/Worker/Jobs.antt =====
-- The jobs of a worker and what becomes of them, as lists.
use robolineage.Prelude.{
  ◌≡◌, refl, ap, String, false, List, [], ◌∷◌, ◌++◌, arith, str_eq, eq_iff, ℕ, zero, suc, Bool, ◌+◌,
  ◌-◌, if◌then◌else◌, Option, none, some,
}
use robolineage.Worker.{
  Item, job, sentinel, Thread, sleeping, running, Worker, Event, accepted, put, taken, reviewed,
  failed, dropped, discard_text, contains, pick, cons_rest,
}

module _ {J : Type 0} where
  unfoldable pub jobs_of : List (Item J) → List J
  jobs_of [] = []
  jobs_of (job j ∷ q) = j ∷ jobs_of q
  jobs_of (sentinel ∷ q) = jobs_of q

  -- The job that the thread has.
  abbrev pub held : Thread J → List J
  held (sleeping j) = j ∷ []
  held (running j) = j ∷ []
  held _ = []

  -- The jobs that are not ended, in their order.
  abbrev pub pending : Worker J → List J
  pending w = held w.thread ++ jobs_of w.queue

  unfoldable pub accepted_of : List (Event J) → List J
  accepted_of [] = []
  accepted_of (accepted j ∷ es) = j ∷ accepted_of es
  accepted_of (_ ∷ es) = accepted_of es

  -- The jobs that were put into the queue.
  unfoldable pub put_of : List (Event J) → List J
  put_of [] = []
  put_of (put j ∷ es) = j ∷ put_of es
  put_of (_ ∷ es) = put_of es

  -- The jobs that were reviewed, with or without success, or dropped by a stop.
  unfoldable pub ended_of : List (Event J) → List J
  ended_of [] = []
  ended_of (reviewed j ∷ es) = j ∷ ended_of es
  ended_of (failed j ∷ es) = j ∷ ended_of es
  ended_of (dropped j ∷ es) = j ∷ ended_of es
  ended_of (_ ∷ es) = ended_of es

  pub jobs_of-append : (q r : List (Item J)) → jobs_of (q ++ r) ≡ jobs_of q ++ jobs_of r
  unfolding jobs_of
  jobs_of-append [] r = refl
  jobs_of-append (job j ∷ q) r = ap (λ l. j ∷ l) (jobs_of-append q r)
  jobs_of-append (sentinel ∷ q) r = jobs_of-append q r

  pub accepted_of-append :
      (es fs : List (Event J)) → accepted_of (es ++ fs) ≡ accepted_of es ++ accepted_of fs
  unfolding accepted_of
  accepted_of-append [] fs = refl
  accepted_of-append (accepted j ∷ es) fs = ap (λ l. j ∷ l) (accepted_of-append es fs)
  accepted_of-append (put j ∷ es) fs = accepted_of-append es fs
  accepted_of-append (taken j ∷ es) fs = accepted_of-append es fs
  accepted_of-append (reviewed j ∷ es) fs = accepted_of-append es fs
  accepted_of-append (failed j ∷ es) fs = accepted_of-append es fs
  accepted_of-append (dropped j ∷ es) fs = accepted_of-append es fs

  pub put_of-append : (es fs : List (Event J)) → put_of (es ++ fs) ≡ put_of es ++ put_of fs
  unfolding put_of
  put_of-append [] fs = refl
  put_of-append (accepted j ∷ es) fs = put_of-append es fs
  put_of-append (put j ∷ es) fs = ap (λ l. j ∷ l) (put_of-append es fs)
  put_of-append (taken j ∷ es) fs = put_of-append es fs
  put_of-append (reviewed j ∷ es) fs = put_of-append es fs
  put_of-append (failed j ∷ es) fs = put_of-append es fs
  put_of-append (dropped j ∷ es) fs = put_of-append es fs

  pub ended_of-append : (es fs : List (Event J)) → ended_of (es ++ fs) ≡ ended_of es ++ ended_of fs
  unfolding ended_of
  ended_of-append [] fs = refl
  ended_of-append (accepted j ∷ es) fs = ended_of-append es fs
  ended_of-append (put j ∷ es) fs = ended_of-append es fs
  ended_of-append (taken j ∷ es) fs = ended_of-append es fs
  ended_of-append (reviewed j ∷ es) fs = ap (λ l. j ∷ l) (ended_of-append es fs)
  ended_of-append (failed j ∷ es) fs = ap (λ l. j ∷ l) (ended_of-append es fs)
  ended_of-append (dropped j ∷ es) fs = ap (λ l. j ∷ l) (ended_of-append es fs)

-- How many members of a list pass a test.
unfoldable pub count_if : {A : Type 0} → (A → Bool) → List A → ℕ
count_if p [] = 0
count_if p (x ∷ xs) = let rest = count_if p xs in if p x then suc rest else rest

pub count_if-append :
    {A : Type 0} (p : A → Bool) (k l : List A) → count_if p (k ++ l) ≡ count_if p k + count_if p l
unfolding count_if
count_if-append p [] l = omega arith
count_if-append p (x ∷ k) l = ground (arith, count_if-append p k l)

-- How often a text stands in a list, and a path among the jobs.
abbrev pub times : String → List String → ℕ
times t l = count_if (λ s. str_eq s t) l

abbrev pub paths : {J : Type 0} → (J → String) → String → List J → ℕ
paths path_of t l = count_if (λ j. str_eq (path_of j) t) l

pub times-discard_text :
    (s t : String) (l : List String)
    → times t (discard_text s l) ≡ (if str_eq s t then times t l - 1 else times t l)
unfolding discard_text count_if
times-discard_text s t [] = ground arith
times-discard_text s t (u ∷ l) =
    ground (arith, eq_iff u s, eq_iff u t, eq_iff s t, times-discard_text s t l)

pub times-absent : (t : String) (l : List String) → contains t l ≡ false → times t l ≡ 0
unfolding count_if
times-absent t [] h = refl
times-absent t (u ∷ l) h = ground (arith, times-absent t l)

later :
    {J : Type 0} (p : J → Bool) (k : J) (o : Option (J × List J)) (l : List J) (j : J)
    (rest : List J)
    → cons_rest k o ≡ some (j, rest)
    → ((i : J) (left : List J) → o ≡ some (i, left) → count_if p l ≡ count_if p (i ∷ left))
    → count_if p (k ∷ l) ≡ count_if p (j ∷ rest)
unfolding count_if
later p k none l j rest h rule = absurd (cc h)
later p k (some (i, left)) l j rest h rule = ground (arith, rule i left refl)

pub count_if-pick :
    {J : Type 0} (p : J → Bool) (n : ℕ) (l : List J) (j : J) (rest : List J)
    → pick n l ≡ some (j, rest)
    → count_if p l ≡ count_if p (j ∷ rest)
unfolding pick count_if
count_if-pick p n [] j rest h = absurd (cc h)
count_if-pick p zero (k ∷ l) j rest h = ground arith
count_if-pick p (suc n) (k ∷ l) j rest h = later p k (pick n l) l j rest h (count_if-pick p n l)

pub discard_head : (s : String) (l : List String) → discard_text s (s ∷ l) ≡ l
unfolding discard_text
discard_head s l = ground (arith, eq_iff s s)
