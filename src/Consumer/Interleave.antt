-- ===== src/Consumer/Interleave.antt =====
-- Two events of different zones in hm6/consumer/main.py, in either order.
use service_oriented_archite.Base.{
  List, String, ◌≡◌, ◌≢◌, refl, sym, ap, ◌∙◌, false, string_eq, pair_eq, arith,
}
use service_oriented_archite.Cassandra.Tables.{Statement, apply_all}
use service_oriented_archite.Cassandra.Rows.{read, SameRows}
use service_oriented_archite.Cassandra.Reordered.{Disjoint, apply_all-exchange}
use service_oriented_archite.Handlers.Sound.{same_key}
use service_oriented_archite.Handlers.Changes.RoundTrip.{same_text}
use service_oriented_archite.Consumer.World.{Message, World, Env}
use service_oriented_archite.Consumer.Deserialize.{Avro}
use service_oriented_archite.Consumer.Process.{id_of, type_of, process_one}
use service_oriented_archite.Consumer.Redelivery.{with_mark}
use service_oriented_archite.Consumer.EventWrites.{event_writes-Disjoint}
use service_oriented_archite.Consumer.New.{
  IsNew, is_batch, still_new, writes, after-ops, keyed, writes-RowsDistinct, ops-writes,
}

module _ (avro : Avro) (env env' : Env) (msg msg' : Message) (w : World) (p z p' z' : String)
    (n : IsNew avro env msg w p z) (m : IsNew avro env' msg' w p' z')
    (zones : same_key (p, z) (p', z') ≡ false) (ids : id_of n.ev ≢ id_of m.ev) where
  zones_back : same_key (p', z') (p, z) ≡ false
  zones_back = ground arith

  writes-Disjoint : Disjoint (writes avro env msg w p z n) (writes avro env' msg' w p' z' m)
  writes-Disjoint =
      let b = is_batch avro env msg w p z n in
      let c = is_batch avro env' msg' w p' z' m in
      let k = keyed avro env msg w p z n in
      let l = keyed avro env' msg' w p' z' m in
      event_writes-Disjoint env' msg' (id_of m.ev) (type_of m.ev) c.p c.z c.a c.r c.id c.t
        c.supplier c.history l.0 l.1 l.2 env msg (id_of n.ev) (type_of n.ev) b.p b.z b.a b.r b.id
        b.t b.supplier b.history k.0 k.1 k.2 (λ e. ids (sym e))
        (rw
          (
            same_text b.p p b.product n.product refl,
            same_text b.z z b.zone n.zone refl,
            same_text c.p p' c.product m.product refl,
            same_text c.z z' c.zone m.zone refl,
          )
          zones_back)

  n_then_m :
      (process_one avro env' msg' (process_one avro env msg w).0).0.db
      ≡ apply_all m.ops (with_mark env' msg' m.ev (apply_all n.ops (with_mark env msg n.ev w.db)))
  n_then_m =
      after-ops avro env' msg' (process_one avro env msg w).0 p' z'
        (still_new avro env msg w p z n env' msg' p' z' m zones_back (λ e. ids (sym e)))
      ∙ ap (λ db. apply_all m.ops (with_mark env' msg' m.ev db)) (after-ops avro env msg w p z n)

  m_then_n :
      (process_one avro env msg (process_one avro env' msg' w).0).0.db
      ≡ apply_all n.ops (with_mark env msg n.ev (apply_all m.ops (with_mark env' msg' m.ev w.db)))
  m_then_n =
      after-ops avro env msg (process_one avro env' msg' w).0 p z
        (still_new avro env' msg' w p' z' m env msg p z n zones ids)
      ∙ ap (λ db. apply_all n.ops (with_mark env msg n.ev db)) (after-ops avro env' msg' w p' z' m)

  -- Two messages with new events of one zone each, of different products or zones and with
  -- different ids, that their handlers accept and whose marks and batches are answered, are both
  -- written in either order, the second one with the batch that it has alone; and both orders leave
  -- the same rows.
  pub process_one-interleaves :
      ((process_one avro env' msg' (process_one avro env msg w).0).0.db
        ≡ apply_all m.ops
            (with_mark env' msg' m.ev (apply_all n.ops (with_mark env msg n.ev w.db))))
      × SameRows
          (process_one avro env' msg' (process_one avro env msg w).0).0.db
          (process_one avro env msg (process_one avro env' msg' w).0).0.db
  process_one-interleaves = (
    n_then_m,
    λ k.
        ap (read k) (
          n_then_m
          ∙ ops-writes avro env' msg' w p' z' m _
          ∙ ap (apply_all w_m) (ops-writes avro env msg w p z n w.db))
        ∙ apply_all-exchange w_n w_m w.db (writes-RowsDistinct avro env msg w p z n)
            (writes-RowsDistinct avro env' msg' w p' z' m) writes-Disjoint k
        ∙ sym (
            ap (read k) (
              m_then_n
              ∙ ops-writes avro env msg w p z n _
              ∙ ap (apply_all w_n) (ops-writes avro env' msg' w p' z' m w.db))),
  )
    where
      w_n : List Statement
      w_n = writes avro env msg w p z n

      w_m : List Statement
      w_m = writes avro env' msg' w p' z' m
