-- ===== src/SessionDb/Seq.antt =====
-- The sequence numbers that the host gives out.
use paraclaw.Prelude.{ℕ, ◌%◌, ◌<◌, ◌≡◌, refl, false, List, [], ◌∷◌, All, any, max_of, arith}
use paraclaw.SessionDb.{MessageIn, next_even_seq, has_seq}

pub lt-max_of {ℓ} :
    {A : Type ℓ} (f : A → ℕ) (xs : List A) (n : ℕ) → max_of f xs < n → All (λ x. f x < n) xs
lt-max_of f [] n h = tt
lt-max_of f (x ∷ xs) n h = (omega arith, lt-max_of f xs n (omega arith))

-- The next sequence number of the host is even and above every one in messages_in.
pub next_even_seq_lem :
    (rows : List MessageIn)
    → (next_even_seq rows % 2 ≡ 0) × All (λ r. r.seq < next_even_seq rows) rows
unfolding next_even_seq
next_even_seq_lem rows =
    (ground arith, lt-max_of (λ (r : MessageIn). r.seq) rows (next_even_seq rows) (ground arith))

pub any-has_seq :
    (seq : ℕ) (rows : List MessageIn) → All (λ r. r.seq < seq) rows → any (has_seq seq) rows ≡ false
any-has_seq seq [] h = refl
any-has_seq seq (r ∷ rows) (p, h) = ground (arith, any-has_seq seq rows h)
