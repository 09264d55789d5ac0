-- ===== src/Movies/Retries.antt =====
-- How the retries of `KafkaProducer.send` of hm5/producer/app/producer.py end, and how long they take.
use service_oriented_archite.Base.{
  ℕ, zero, suc, ◌+◌, ◌-◌, ◌≤◌, ◌≡◌, ◌≢◌, refl, subst, ◌⊎◌, inl, inr, arith, Bool-cases,
}
use service_oriented_archite.Movies.Producer.{
  Attempt, accepted, buffer_full, failed, Sending, sent, raised, dropped, max_retries, backoff,
  is_last, send_from, send,
}

-- No attempt between two is accepted.
abbrev pub NoneAccepted : (ℕ → Attempt) → ℕ → ℕ → Type 0
NoneAccepted produce from last = (k : ℕ) → from ≤ k → k ≤ last → produce k ≢ accepted

-- How the attempts from one to the last may end.
pub data Ends (produce : ℕ → Attempt) (from last : ℕ) : Sending → Type 0 where
  taken : (k : ℕ) → from ≤ k → k ≤ last → produce k ≡ accepted → Ends produce from last sent
  given_up : NoneAccepted produce from last → produce last ≡ failed → Ends produce from last raised
  lost :
      NoneAccepted produce from last → produce last ≡ buffer_full → Ends produce from last dropped

module _ (produce : ℕ → Attempt) (from last : ℕ) (refused : produce from ≢ accepted) where
  none_from : NoneAccepted produce (suc from) last → NoneAccepted produce from last
  none_from h k a b e = elim (first_or_later k a) [
    | inl same ↦ refused (subst (λ j. produce j ≡ accepted) same e)
    | inr later ↦ h k later b e
  ]
    where
      first_or_later : (k : ℕ) → from ≤ k → (k ≡ from) ⊎ (suc from ≤ k)
      first_or_later k a = omega arith

  Ends-from : (how : Sending) → Ends produce (suc from) last how → Ends produce from last how
  Ends-from how (taken k a b e) = taken k (omega arith) b e
  Ends-from how (given_up h e) = given_up (none_from h) e
  Ends-from how (lost h e) = lost (none_from h) e

Attempt-cases : (a : Attempt) → (a ≡ accepted) ⊎ ((a ≡ buffer_full) ⊎ (a ≡ failed))
Attempt-cases accepted = inl refl
Attempt-cases buffer_full = inr (inl refl)
Attempt-cases failed = inr (inr refl)

module _ (produce : ℕ → Attempt) (last : ℕ) where
  -- Where there is only the last attempt.
  only_last : produce last ≢ accepted → NoneAccepted produce last last
  only_last refused k a b e = refused (subst (λ j. produce j ≡ accepted) (between k a b) e)
    where
      between : (k : ℕ) → last ≤ k → k ≤ last → k ≡ last
      between k a b = omega arith

  last-Ends : Ends produce last last (send_from produce last 1).how
  unfolding send_from
  last-Ends = elim (Attempt-cases (produce last)) [
    | inl good ↦ rw (send_from, good) (taken last (omega arith) (omega arith) good)
    | inr (inl full) ↦ rw (send_from, full) (lost (only_last (λ e. cc)) full)
    | inr (inr failure) ↦ rw (send_from, failure) (given_up (only_last (λ e. cc)) failure)
  ]

send_from-Ends :
    (produce : ℕ → Attempt) (left from last : ℕ)
    → last ≡ from + left
    → Ends produce from last (send_from produce from (suc left)).how
unfolding send_from
send_from-Ends produce zero from last e =
    subst (λ k. Ends produce from k (send_from produce from 1).how) (omega arith)
      (last-Ends produce from)
send_from-Ends produce (suc left) from last e = elim (Attempt-cases (produce from)) [
  | inl good ↦ rw (send_from, good) (taken from (omega arith) (omega arith) good)
  | inr (inl full) ↦
      rw (send_from, full)
        (Ends-from produce from last (λ a. cc) _
          (send_from-Ends produce left (suc from) last (omega arith)))
  | inr (inr failure) ↦
      rw (send_from, failure)
        (Ends-from produce from last (λ a. cc) _
          (send_from-Ends produce left (suc from) last (omega arith)))
]

backoff_mono : (left from end : ℕ) → end ≡ from + left → backoff from ≤ backoff end
backoff_mono zero from end e = subst (λ k. backoff from ≤ backoff k) (from_is_end e) (omega arith)
  where
    from_is_end : end ≡ from + 0 → from ≡ end
    from_is_end e = omega arith
backoff_mono (suc left) from end e = omega (arith, backoff_mono left (suc from) end (omega arith))

send_from-slept :
    (produce : ℕ → Attempt) (left from end : ℕ)
    → end ≡ from + left
    → (send_from produce from left).slept + backoff from ≤ backoff end
unfolding send_from
send_from-slept produce zero from end e = omega (arith, backoff_mono zero from end e)
send_from-slept produce (suc left) from end e =
    let more : (send_from produce (suc from) left).slept + backoff (suc from) ≤ backoff end =
      send_from-slept produce left (suc from) end (omega arith) in
    elim (Attempt-cases (produce from)) [
      | inl good ↦ rw (send_from, good) (omega (arith, backoff_mono (suc left) from end e))
      | inr (inl full) ↦ rw (send_from, full) (omega arith)
      | inr (inr failure) ↦ elim (Bool-cases (is_last left)) [
        | inl last ↦
            rw (send_from, failure, last) (omega (arith, backoff_mono (suc left) from end e))
        | inr no_last ↦ rw (send_from, failure, no_last) (omega arith)
      ]
    ]

-- `send` ends in one of three ways. It returns with the message taken by one of three attempts; or an
-- exception leaves it, when none was taken and the last failed; or it returns although none was
-- taken, when the buffer was full at the last. It sleeps for at most 3.5 seconds.
pub send-Ends :
    (produce : ℕ → Attempt)
    → Ends produce 0 (max_retries - 1) (send produce).how × ((send produce).slept ≤ 3500)
unfolding send
send-Ends produce =
    (send_from-Ends produce 2 0 2 refl, omega (arith, send_from-slept produce 3 0 3 refl))
