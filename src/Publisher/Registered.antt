-- ===== src/Publisher/Registered.antt =====
-- What `register_schemas` of hm6/producer/main.py asks of the Schema Registry, and what it returns.
use service_oriented_archite.Base.{
  String, ◌≡◌, refl, ◌∙◌, false, none, some, List, [], ◌∷◌, arith, string_eq, ◌==◌,
}
use service_oriented_archite.Base.Table.{Table, lookup, insert, lookup-insert, NodupKeys}
use service_oriented_archite.Publisher.Registry.{
  Request, set_compatibility, Registry, SchemaInfo, schema_files, Registering, subject_of,
  register_record, register_records, register_schemas,
}
use service_oriented_archite.Publisher.Latest.{
  Covered, Gives, and_then-Gives, IsLatest, register_files-Gives,
}

-- Every record of a table of files has the schema of its last file in the map.
abbrev pub Registered :
    Registry → String → Table String (List String) → Table String SchemaInfo → Type 0
Registered sr topic [] out = Unit
Registered sr topic ((record_full, files) ∷ rest) out =
    ((info : SchemaInfo) × (lookup record_full out ≡ some info)
      × IsLatest sr (subject_of topic record_full)
          (record { schema_id = none; schema_str = none; subject = subject_of topic record_full })
          files info)
    × Registered sr topic rest out

module _ (sr : Registry) where
  register_record-Gives :
      (subject : String) (files : List String) (requests : List Request)
      → Covered requests
      → Gives
          (λ info r.
            IsLatest sr subject
              (record { schema_id = none; schema_str = none; subject = subject })
              files
              info)
          (register_record sr subject files requests)
  unfolding register_record
  register_record-Gives subject files requests c =
      register_files-Gives sr subject files _ (set_compatibility subject "BACKWARD" ∷ requests)
        (grind arith) c

Gives-map :
    {A : Type 0} (P Q : A → List Request → Type 0)
    → ((a : A) (requests : List Request) → P a requests → Q a requests)
    → (x : Registering A) → Gives P x
    → Gives Q x
Gives-map P Q f (none, requests) h = h
Gives-map P Q f (some a, requests) (h, p) = (h, f a requests p)

fresh_or_other :
    (k j : String) (files : List String) (rest : Table String (List String))
    → lookup k ((j, files) ∷ rest) ≡ none
    → (k == j ≡ false) × (lookup k rest ≡ none)
unfolding lookup
fresh_or_other k j files rest h = (ground arith, ground arith)

module _ (sr : Registry) (topic : String) where
  -- Records that are not in the table keep their schemas.
  abbrev Result :
      Table String (List String) → Table String SchemaInfo → Table String SchemaInfo → Type 0
  Result table out out' =
      Registered sr topic table out'
      × ((k : String) → lookup k table ≡ none → lookup k out' ≡ lookup k out)

  Result-insert :
      (record_full : String) (files : List String) (rest : Table String (List String))
      (info : SchemaInfo) (out out' : Table String SchemaInfo)
      → lookup record_full rest ≡ none
      → IsLatest sr
          (subject_of topic record_full)
          (record { schema_id = none; schema_str = none; subject = subject_of topic record_full })
          files
          info
      → Result rest (insert record_full info out) out'
      → Result ((record_full, files) ∷ rest) out out'
  Result-insert record_full files rest info out out' fresh latest (registered, keeps) = (
    (
      (
        info,
        keeps record_full fresh ∙ lookup-insert record_full record_full info out ∙ ground arith,
        latest,
      ),
      registered,
    ),
    λ k h.
        let (other, absent) = fresh_or_other k record_full files rest h in
        keeps k absent ∙ lookup-insert k record_full info out ∙ rw other refl,
  )

  register_records-Gives :
      (table : Table String (List String)) (out : Table String SchemaInfo) (requests : List Request)
      → NodupKeys table
      → Covered requests
      → Gives (λ out' r. Result table out out') (register_records sr topic table out requests)
  unfolding register_records
  register_records-Gives [] out requests distinct c = (c, (tt, λ k h. refl))
  register_records-Gives ((record_full, files) ∷ rest) out requests (fresh, distinct) c =
      and_then-Gives _ (λ out' r. Result ((record_full, files) ∷ rest) out out')
        (register_record sr (subject_of topic record_full) files requests)
        (λ info. register_records sr topic rest (insert record_full info out))
        (register_record-Gives sr (subject_of topic record_full) files requests c)
        (λ info r c' latest.
          Gives-map (λ out' r'. Result rest (insert record_full info out) out') _
            (λ out' r' h. Result-insert record_full files rest info out out' fresh latest h)
            (register_records sr topic rest (insert record_full info out) r)
            (register_records-Gives rest (insert record_full info out) r distinct c'))

schema_files-NodupKeys : NodupKeys schema_files
unfolding lookup string_eq
schema_files-NodupKeys = (refl, (refl, (refl, (refl, (refl, (refl, (refl, (refl, tt))))))))

-- Whatever the registry answers, no schema is registered under a subject before backward compatibility has
-- been asked for that subject, and where `register_schemas` returns a map, it holds for each record of
-- `SCHEMA_FILES` the text and the id of its last file, under the subject of the topic and the record.
pub register_schemas-Registered :
    (sr : Registry) (topic : String)
    → Gives (λ out r. Registered sr topic schema_files out) (register_schemas sr topic)
unfolding register_schemas
register_schemas-Registered sr topic =
    Gives-map (λ out r. Result sr topic schema_files [] out) _ (λ out r h. h.0)
      (register_records sr topic schema_files [] [])
      (register_records-Gives sr topic schema_files [] [] schema_files-NodupKeys tt)
