-- ===== src/Tests/Commits.antt =====
-- What the consumer commits and what it sends to the dead letter queue.
use service_oriented_archite.Base.{
  ◌≡◌, ◌⊎◌, refl, false, none, some, [], ◌∷◌, string_eq, pair_eq, nat_eq,
}
use service_oriented_archite.Python.Exception.{◌>>=◌}
use service_oriented_archite.Consumer.World.{Letter, World, Exit, returned, raised}
use service_oriented_archite.Consumer.Process.{commit_offset, process_one}
use service_oriented_archite.Consumer.Outcome.{IsUnhashable}
use service_oriented_archite.Consumer.Deserialize.{deserialize}
use service_oriented_archite.Consumer.Loop.{consume_loop}
use service_oriented_archite.Consumer.Commits.{
  next_offset, IsLetterOf, AllHashable, process_one-commits, process_one-letters,
  consume_loop-returned,
}
use service_oriented_archite.Consumer.Dlq
use service_oriented_archite.Consumer.Letters.{IsJson, original-IsJson}
use service_oriented_archite.Tests.Warehouse.{filled}
use service_oriented_archite.Tests.Messages.{
  shipment, avro, message, shipping, calm, broken_batch, before, polls, unwritten,
}

process_one-commits_example :
    (unwritten.commits ≡ next_offset shipping ∷ [])
    ⊎ ((unwritten.commits ≡ [])
        × (unwritten.letters ≡ [])
        × ((unwritten.cassandra_connected ≡ false)
            ⊎ (IsUnhashable avro shipping
                × ((process_one avro broken_batch shipping before).1 ≡ raised))))
process_one-commits_example = process_one-commits avro broken_batch shipping before refl refl

-- The message without a value becomes a letter.
abbrev rejected : World × Exit
rejected = process_one avro calm (message none 42) before

process_one-letters_example :
    (rejected.0.letters ≡ [])
    ⊎ ((l : Letter) × (rejected.0.letters ≡ l ∷ [])
        × IsLetterOf (message none 42) l
        × (rejected.0.db ≡ filled)
        × (rejected.0.commits ≡ (commit_offset calm (message none 42) before).commits))
process_one-letters_example = process_one-letters avro calm (message none 42) before

-- A message without a value is not decoded.
polls-AllHashable : AllHashable avro polls
unfolding deserialize ◌>>=◌
polls-AllHashable = (λ (ev, decoded, _). cc, tt)

consume_loop-returned_example : (consume_loop avro polls before).1 ≡ returned
consume_loop-returned_example = consume_loop-returned avro polls before (refl, tt) polls-AllHashable

original-IsJson_example : IsJson (Dlq.original (some (77 ∷ 97 ∷ [])) (some shipment))
original-IsJson_example = original-IsJson (some (77 ∷ 97 ∷ [])) (some shipment)
