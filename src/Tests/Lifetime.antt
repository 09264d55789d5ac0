-- ===== src/Tests/Lifetime.antt =====
-- An order that is accepted, and its completion.
use service_oriented_archite.Base.{String, ◌+◌, ◌≡◌, refl, List, string_eq, pair_eq, arith}
use service_oriented_archite.Base.Int.{pos}
use service_oriented_archite.Base.Table.{lookup, insert}
use service_oriented_archite.Python.Exception.{ok, ◌>>=◌}
use service_oriented_archite.Python.Datetime.{epoch}
use service_oriented_archite.Python.Value.{nil, cons, as_dict, int_at, text_at, time_at, list_at}
use service_oriented_archite.Cassandra.Tables.{Statement, apply, apply_all}
use service_oriented_archite.Handlers.Zone.{batch, zone_state, is_stale, zone_writes}
use service_oriented_archite.Handlers.Orders.{
  order_line, handle_order_created, handle_order_completed,
}
use service_oriented_archite.Handlers.Sound.{stock}
use service_oriented_archite.Handlers.Accepts.Items.{IsServed, AllServed}
use service_oriented_archite.Handlers.Accepts.Lifetime.{written, order_lifetime}
use service_oriented_archite.Tests.Warehouse.{
  over, filled, filled-IsSound, bolts, order, completion,
}

bolts-AllServed : AllServed filled (epoch + 60000) (cons (bolts 2) (cons (bolts 5) nil))
unfolding string_eq pair_eq lookup insert ◌>>=◌ as_dict int_at text_at order_line zone_state
    is_stale zone_writes apply apply_all
bolts-AllServed =
    let two : IsServed filled (epoch + 60000) (bolts 2) = record {
      line = record { pid = "bolt"; zid = "A"; qty = pos 2 };
      read = refl;
      nonneg = omega arith;
      newer = refl;
      covered = omega arith;
    } in
    let five : IsServed filled (epoch + 60000) (bolts 5) = record {
      line = record { pid = "bolt"; zid = "A"; qty = pos 5 };
      read = refl;
      nonneg = omega arith;
      newer = refl;
      covered = omega arith;
    } in
    (two, (five, tt))

order_lifetime_example :
    (ops : List Statement) × (handle_order_created (over filled) order ≡ ok (batch ops))
    × (ops' : List Statement) × (handle_order_completed (written (over filled) ops) completion
        ≡ ok (batch ops'))
    × ((p z : String)
        → ((stock (apply_all ops' (apply_all ops filled)) p z).available
            ≡ (stock filled p z).available)
          × ((stock (apply_all ops' (apply_all ops filled)) p z).reserved
              ≡ (stock filled p z).reserved))
unfolding string_eq ◌>>=◌ text_at time_at list_at
order_lifetime_example =
    order_lifetime (over filled) order completion "o1" "ORDER_CREATED" "e1" "ORDER_COMPLETED" "e2"
      (epoch + 60000) (epoch + 120000) (cons (bolts 2) (cons (bolts 5) nil)) refl refl refl refl
      refl refl refl refl refl refl (omega arith) filled-IsSound (λ p z. refl) refl bolts-AllServed
