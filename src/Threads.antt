-- ===== src/Threads.antt =====
-- Threads over one shared state, interleaved in any order: each step is a move of one of them, as the
-- code's locked sections are, and the code between two sections.
use confidential_ml_feature.Prelude.{ℕ, ◌≢◌, arith, ◌==◌, if◌then◌else◌, if-elim}

abbrev pub assign {ℓ} : {A : Type ℓ} → ℕ → A → (ℕ → A) → ℕ → A
assign i x f j = if i == j then x else f j

pub record System (Shared Work : Type 0) : Type 0 where
  pub shared : Shared
  pub work : ℕ → Work

module _ {Shared Work : Type 0} (Move : Work → Shared → Work → Shared → Type 0) where
  pub data Step (s : System Shared Work) : System Shared Work → Type 0 where
    pick :
        (i : ℕ) {w : Work} {m : Shared}
        → Move (s.work i) s.shared w m
        → Step s (record { shared = m; work = assign i w s.work })

  pub data Reach (init : System Shared Work) : System Shared Work → Type 0 where
    start : Reach init init
    later : {s t : System Shared Work} → Reach init s → Step s t → Reach init t

  module _ (Inv : Shared → Type 0) (Local : Shared → Work → Type 0)
      (Apart : Work → Work → Type 0) where
    -- What holds between any two steps: of the state, of each thread, and of any two threads.
    pub record Holds (s : System Shared Work) : Type 0 where
      pub state : Inv s.shared
      pub each : (i : ℕ) → Local s.shared (s.work i)
      pub two : (i j : ℕ) → i ≢ j → Apart (s.work i) (s.work j)

    -- A move keeps the invariant and its own thread's, and those of any other thread.
    pub record IsKept : Type 0 where
      pub apart_sym : {v w : Work} → Apart v w → Apart w v
      pub own :
          {w w' : Work} {m m' : Shared} → Move w m w' m' → Inv m → Local m w → Inv m' × Local m' w'
      pub other :
          {v w w' : Work} {m m' : Shared}
          → Move w m w' m'
          → Inv m
          → Local m w
          → Local m v
          → Apart w v
          → Local m' v × Apart w' v

    Step-Holds : {s t : System Shared Work} → IsKept → Holds s → Step s t → Holds t
    Step-Holds {s} kept h (pick k {w} {m} move) = record {
      state = mine.0;
      each = λ j.
          if-elim (Local m) (k == j) w (s.work j) (λ e. mine.1)
            (λ e. (others j (ground (arith, e))).0);
      two = λ i j ne.
          if-elim (λ v. Apart v (assign k w s.work j)) (k == i) w (s.work i)
            (λ e.
              if-elim (Apart w) (k == j) w (s.work j) (λ f. absurd (ground (arith, e, f, ne)))
                (λ f. (others j (ground (arith, f))).1))
            (λ e.
              if-elim (Apart (s.work i)) (k == j) w (s.work j)
                (λ f. kept.apart_sym (others i (ground (arith, e))).1) (λ f. h.two i j ne));
    }
      where
        mine : Inv m × Local m w
        mine = kept.own move h.state (h.each k)

        others : (j : ℕ) → k ≢ j → Local m (s.work j) × Apart w (s.work j)
        others j ne = kept.other move h.state (h.each k) (h.each j) (h.two k j ne)

    -- An invariant that each move keeps holds in every state that the threads reach.
    pub reach-Holds : {s t : System Shared Work} → IsKept → Holds s → Reach s t → Holds t
    reach-Holds kept h start = h
    reach-Holds kept h (later r st) = Step-Holds kept (reach-Holds kept h r) st
