-- ===== src/Rollouts/Budget.antt =====
-- The token counts of a rollout, and the length of its log.
use ne_mo_rl_enhanced_math_r.Common.{
  ℕ, suc, ◌+◌, ◌-◌, ◌≤◌, ◌<◌, ◌≡◌, inl, inr, Bool, true, false, ◌||◌, List, [], ◌∷◌, ◌++◌, Option,
  none, some, ltb, leb, ◌==◌, arith, Bool-cases, Result, length, length-append, length-take, Dict,
  lookup, put, sum, sum-append, sum_of,
}
use ne_mo_rl_enhanced_math_r.Rollouts.{
  Role, Message, Generated, Feedback, Rollout, flat_tokens, count_of, count_worker, cut,
  after_generation, observe, after_feedback,
}

-- The tokens that the workers generated.
abbrev pub worker_tokens : Dict ℕ → ℕ
worker_tokens counts = sum_of (λ (entry : ℕ × ℕ). entry.1) counts

put-worker_tokens :
    (worker count : ℕ) (counts : Dict ℕ)
    → worker_tokens (put worker count counts) + count_of (lookup worker counts)
      ≡ worker_tokens counts + count
put-worker_tokens worker count [] = omega arith
put-worker_tokens worker count ((j, n) ∷ counts) = elim (Bool-cases (worker == j)) [
  | inl e ↦ rw e (omega arith)
  | inr e ↦ let rest = put-worker_tokens worker count counts in rw e (omega (arith, rest))
]

count_worker-le :
    (worker : Option ℕ) (tokens : ℕ) (counts : Dict ℕ)
    → worker_tokens (count_worker worker tokens counts) ≤ worker_tokens counts + tokens
count_worker-le none tokens counts = omega arith
count_worker-le (some worker) tokens counts =
    omega (arith, put-worker_tokens worker (count_of (lookup worker counts) + tokens) counts)

module _ {C : Type 0} where
  abbrev pub size_of : List (Message C) → ℕ
  size_of log = length (flat_tokens log)

  pub size_of-append :
      (log : List (Message C)) (m : Message C)
      → size_of (log ++ m ∷ []) ≡ size_of log + length m.token_ids
  size_of-append [] m = omega (arith, length-append m.token_ids [])
  size_of-append (x ∷ log) m = omega (
    arith,
    size_of-append log m,
    length-append x.token_ids (flat_tokens (log ++ m ∷ [])),
    length-append x.token_ids (flat_tokens log),
  )

module _ {C S I : Type 0} where
  -- The counts agree with each other and with the log, which had `initial` tokens at the start.
  pub record Counted (initial : ℕ) (s : Rollout C S I) : Type 0 where
    pub split : s.token_count ≡ s.assistant_token_count + s.env_token_count
    pub log_size : size_of s.message_log ≡ initial + s.token_count
    pub generated : sum s.turn_gen_tokens ≡ s.assistant_token_count
    pub by_worker : worker_tokens s.per_worker_token_counts ≤ s.assistant_token_count
    pub turns_counted : length s.turn_gen_tokens ≤ s.turn_count

  -- The log is within the limit, and below it if the rollout goes on.
  pub record Bounded (max_seq_len : ℕ) (s : Rollout C S I) : Type 0 where
    pub within : size_of s.message_log ≤ max_seq_len
    pub room : (s.terminated || s.truncated) ≡ false → size_of s.message_log < max_seq_len

  module _ {E : Type 0} (max_seq_len : ℕ) (engine : ℕ → List ℕ → Option S → Result E (Generated C))
      (step : ℕ → List (Role × C) → I → Result E (Feedback C S I)) (tokenize : C → List ℕ) where
    pub after_generation-Counted :
        (initial turn : ℕ) (out : Generated C) (log : List (Message C)) (s : Rollout C S I)
        → size_of log ≡ size_of s.message_log + length out.tokens
        → Counted initial s
        → Counted initial (after_generation max_seq_len engine step tokenize (log, out) s)
    unfolding after_generation
    after_generation-Counted initial turn out log s size c = record {
      split = omega (arith, c.split);
      log_size = omega (arith, size, c.log_size);
      generated = omega (arith, sum-append s.turn_gen_tokens (length out.tokens ∷ []), c.generated);
      by_worker = omega (
        arith,
        count_worker-le out.worker (length out.tokens) s.per_worker_token_counts,
        c.by_worker,
      );
      turns_counted =
          omega (arith, length-append s.turn_gen_tokens (length out.tokens ∷ []), c.turns_counted);
    }

    pub after_generation-size :
        (out : Generated C) (log : List (Message C)) (s : Rollout C S I)
        → size_of log ≡ size_of s.message_log + length out.tokens
        → size_of (after_generation max_seq_len engine step tokenize (log, out) s).message_log
          ≡ size_of s.message_log + length out.tokens
    unfolding after_generation
    after_generation-size out log s e = e

    pub turn_count-next :
        {turn : ℕ} (used : ℕ) (out : Generated C) (log : List (Message C)) (f : Feedback C S I)
        (s : Rollout C S I)
        → s.turn_count ≡ turn
        → (after_feedback max_seq_len engine step tokenize used f
            (after_generation max_seq_len engine step tokenize (log, out) s)).turn_count
          ≡ suc turn
    unfolding after_feedback after_generation observe
    turn_count-next used out log f s e = omega (arith, e)

    observe-Counted :
        (initial : ℕ) (overflows : Bool) (tokens : List ℕ) (f : Feedback C S I) (s : Rollout C S I)
        → Counted initial s
        → Counted initial (observe max_seq_len engine step tokenize overflows tokens f s)
          × (size_of (observe max_seq_len engine step tokenize overflows tokens f s).message_log
              ≡ size_of s.message_log + length tokens)
    unfolding observe
    observe-Counted initial overflows tokens f s c =
        let size =
          size_of-append s.message_log
            (record { role = f.observation_role; content = f.observation; token_ids = tokens }) in
        (
          record {
            split = omega (arith, c.split);
            log_size = omega (arith, size, c.log_size);
            generated = c.generated;
            by_worker = c.by_worker;
            turns_counted = c.turns_counted;
          },
          size,
        )

    cut-le :
        (used : ℕ) (tokens : List ℕ)
        → used ≤ max_seq_len
        → used + length (cut max_seq_len used tokens) ≤ max_seq_len
    cut-le used tokens l = elim (Bool-cases (ltb used max_seq_len)) [
      | inr e ↦ rw e (omega (arith, l))
      | inl e ↦ rw e (omega (arith, length-take (max_seq_len - used) tokens, l))
    ]

    or_true : (a b : Bool) → (a || (b || true)) ≡ false → ⊥
    or_true true b h = cc
    or_true false true h = cc
    or_true false false h = cc

    pub after_feedback-Bounded :
        (initial used : ℕ) (f : Feedback C S I) (s : Rollout C S I)
        → size_of s.message_log ≡ used
        → used ≤ max_seq_len
        → Counted initial s
        → Counted initial (after_feedback max_seq_len engine step tokenize used f s)
          × Bounded max_seq_len (after_feedback max_seq_len engine step tokenize used f s)
    unfolding after_feedback observe
    after_feedback-Bounded initial used f s size l c =
        let tokens = tokenize f.observation in
        elim (Bool-cases (leb max_seq_len (used + length tokens))) [
          | inl e ↦
              let (c', grown) = observe-Counted initial true (cut max_seq_len used tokens) f s c in
              rw e (
                c',
                record {
                  within = omega (arith, grown, size, cut-le used tokens l);
                  room = λ h. absurd (or_true f.terminated s.truncated h);
                },
              )
          | inr e ↦
              let (c', grown) = observe-Counted initial false tokens f s c in
              let below : used + length tokens < max_seq_len = ground (arith, e) in
              rw e (
                c',
                record {
                  within = omega (arith, grown, size, below);
                  room = λ h. omega (arith, grown, size, below);
                },
              )
        ]
