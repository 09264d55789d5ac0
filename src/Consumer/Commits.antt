-- ===== src/Consumer/Commits.antt =====
-- Which offsets hm6/consumer/main.py commits, which messages it sends to the dead letter queue, and
-- when an exception ends its loop.
use service_oriented_archite.Base.{
  suc, ◌≡◌, refl, ap, ◌∙◌, true, false, List, [], ◌∷◌, arith, string_eq, inl, inr, ◌⊎◌,
}
use service_oriented_archite.Consumer.World.{
  Message, Letter, Commit, World, Env, Exit, returned, raised,
}
use service_oriented_archite.Consumer.Deserialize.{Avro}
use service_oriented_archite.Consumer.Dlq.{letter}
use service_oriented_archite.Consumer.Process.{commit_offset, process_one}
use service_oriented_archite.Consumer.Loop.{
  Poll, nothing, partition_eof, kafka_error, received, poll_once, go_on, consume_loop,
}
use service_oriented_archite.Consumer.Outcome.{
  IsUnhashable, done, dead, stopped, crashed, failed, OutcomeOf, process_one-Outcome,
}

-- The offset after a message.
abbrev pub next_offset : Message → Commit
next_offset msg = record { topic = msg.topic; partition = msg.partition; offset = suc msg.offset }

commit_offset-accepted :
    (env : Env) (msg : Message) (w : World)
    → env.commit_accepted ≡ true
    → (commit_offset env msg w).commits ≡ next_offset msg ∷ w.commits
unfolding commit_offset
commit_offset-accepted env msg w h = ground arith

-- A letter of a message names its place in the log.
abbrev pub IsLetterOf : Message → Letter → Type 0
IsLetterOf msg l = (l.topic ≡ msg.topic) × (l.partition ≡ msg.partition) × (l.offset ≡ msg.offset)

module _ (avro : Avro) (env : Env) (msg : Message) (w : World) where
  abbrev after : World × Exit
  after = process_one avro env msg w

  commits_of_Outcome :
      (x : World × Exit)
      → OutcomeOf avro env msg w x
      → env.dlq_accepts ≡ true
      → env.commit_accepted ≡ true
      → (x.0.commits ≡ next_offset msg ∷ w.commits)
        ⊎ ((x.0.commits ≡ w.commits)
            × (x.0.letters ≡ w.letters)
            × ((x.0.cassandra_connected ≡ false) ⊎ (IsUnhashable avro msg × (x.1 ≡ raised))))
  commits_of_Outcome x (done s l c e) taken accepted =
      inl (c ∙ commit_offset-accepted env msg w accepted)
  commits_of_Outcome x (dead _ _ _ s l c e) taken accepted =
      inl (c ∙ commit_offset-accepted env msg w accepted)
  commits_of_Outcome x (stopped full s l c e) taken accepted = cc
  commits_of_Outcome x (crashed k s l c e) taken accepted = inr (c, l, inr (k, e))
  commits_of_Outcome x (failed s l c k e) taken accepted = inr (c, l, inl k)

  -- When the letter and the commit are accepted, processing a message commits the offset after it, or
  -- else it leaves the commits and the letters as they are, and it notes that Cassandra is disconnected
  -- or an exception leaves it since the type of the event cannot be hashed.
  pub process_one-commits :
      env.dlq_accepts ≡ true
      → env.commit_accepted ≡ true
      → (after.0.commits ≡ next_offset msg ∷ w.commits)
        ⊎ ((after.0.commits ≡ w.commits)
            × (after.0.letters ≡ w.letters)
            × ((after.0.cassandra_connected ≡ false)
                ⊎ (IsUnhashable avro msg × (after.1 ≡ raised))))
  process_one-commits taken accepted =
      commits_of_Outcome after (process_one-Outcome avro env msg w) taken accepted

  letters_of_Outcome :
      (x : World × Exit)
      → OutcomeOf avro env msg w x
      → (x.0.letters ≡ w.letters)
        ⊎ ((l : Letter) × (x.0.letters ≡ l ∷ w.letters)
            × IsLetterOf msg l
            × (x.0.db ≡ w.db)
            × (x.0.commits ≡ (commit_offset env msg w).commits))
  unfolding letter
  letters_of_Outcome x (done s l c e) = inl l
  letters_of_Outcome x (dead decoded reason code s l c e) =
      inr (letter msg decoded reason code env.now, l, (refl, refl, refl), s, c)
  letters_of_Outcome x (stopped full s l c e) = inl l
  letters_of_Outcome x (crashed k s l c e) = inl l
  letters_of_Outcome x (failed s l c k e) = inl l

  -- Processing a message sends no letter, or it sends one, which names the topic, the partition and
  -- the offset of the message; then no table has changed and the offset is offered for commit.
  pub process_one-letters :
      (after.0.letters ≡ w.letters)
      ⊎ ((l : Letter) × (after.0.letters ≡ l ∷ w.letters)
          × IsLetterOf msg l
          × (after.0.db ≡ w.db)
          × (after.0.commits ≡ (commit_offset env msg w).commits))
  process_one-letters = letters_of_Outcome after (process_one-Outcome avro env msg w)

  exit_of_Outcome :
      (x : World × Exit)
      → OutcomeOf avro env msg w x
      → (x.1 ≡ returned)
        ⊎ (((env.dlq_accepts ≡ false) ⊎ IsUnhashable avro msg)
            × (x.0.db ≡ w.db)
            × (x.0.commits ≡ w.commits)
            × (x.0.letters ≡ w.letters))
  exit_of_Outcome x (done s l c e) = inl e
  exit_of_Outcome x (dead _ _ _ s l c e) = inl e
  exit_of_Outcome x (stopped full s l c e) = inr (inl full, s, c, l)
  exit_of_Outcome x (crashed k s l c e) = inr (inr k, s, c, l)
  exit_of_Outcome x (failed s l c k e) = inl e

  -- An exception leaves the processing of a message only when the dead letter queue does not take its
  -- letter or the type of its event cannot be hashed; then the tables, the commits and the letters are as they were.
  pub process_one-exit :
      (after.1 ≡ returned)
      ⊎ (((env.dlq_accepts ≡ false) ⊎ IsUnhashable avro msg)
          × (after.0.db ≡ w.db)
          × (after.0.commits ≡ w.commits)
          × (after.0.letters ≡ w.letters))
  process_one-exit = exit_of_Outcome after (process_one-Outcome avro env msg w)

-- No message of the polls has an event whose type cannot be hashed, as it is with the schemas of
-- hm6/schemas, where `event_type` is a string.
abbrev pub AllHashable : Avro → List Poll → Type 0
AllHashable avro [] = Unit
AllHashable avro (received env msg ∷ rest) = (IsUnhashable avro msg → ⊥) × AllHashable avro rest
AllHashable avro (_ ∷ rest) = AllHashable avro rest

returned_of_taken :
    (avro : Avro) (env : Env) (msg : Message) (w : World)
    → env.dlq_accepts ≡ true
    → (IsUnhashable avro msg → ⊥)
    → (process_one avro env msg w).1 ≡ returned
returned_of_taken avro env msg w taken hashable = elim (process_one-exit avro env msg w) [
  | inl e ↦ e
  | inr (inl full, _, _, _) ↦ cc
  | inr (inr k, _, _, _) ↦ absurd (hashable k)
]

-- The dead letter queue takes every letter.
abbrev pub TakesLetters : List Poll → Type 0
TakesLetters [] = Unit
TakesLetters (received env msg ∷ rest) = (env.dlq_accepts ≡ true) × TakesLetters rest
TakesLetters (_ ∷ rest) = TakesLetters rest

go_on-returned :
    (loop : World → World × Exit) (x : World × Exit) → x.1 ≡ returned → go_on loop x ≡ loop x.0
unfolding go_on
go_on-returned loop (w, returned) e = refl
go_on-returned loop (w, raised) e = cc

-- While the dead letter queue takes every letter and every event type can be hashed, no exception ends
-- the loop before its polls do.
pub consume_loop-returned :
    (avro : Avro) (polls : List Poll) (w : World)
    → TakesLetters polls
    → AllHashable avro polls
    → (consume_loop avro polls w).1 ≡ returned
unfolding consume_loop poll_once go_on
consume_loop-returned avro [] w h k = refl
consume_loop-returned avro (nothing ∷ rest) w h k = consume_loop-returned avro rest _ h k
consume_loop-returned avro (partition_eof ∷ rest) w h k = consume_loop-returned avro rest _ h k
consume_loop-returned avro (kafka_error ∷ rest) w h k = consume_loop-returned avro rest _ h k
consume_loop-returned avro (received env msg ∷ rest) w (taken, h) (hashable, k) =
    let w' : World = record w { kafka_connected = true } in
    ap (λ x. x.1)
      (go_on-returned (consume_loop avro rest) (process_one avro env msg w')
        (returned_of_taken avro env msg w' taken hashable))
    ∙ consume_loop-returned avro rest (process_one avro env msg w').0 h k
