-- ===== src/Publisher/Latest.antt =====
-- What the files of one record come to in `register_schemas` of hm6/producer/main.py.
use service_oriented_archite.Base.{
  String, ◌≡◌, refl, sym, subst, Bool, true, false, ◌&&◌, ◌||◌, Option, none, some, List, [], ◌∷◌,
  string_eq, ◌==◌, inl, inr, Option-cases,
}
use service_oriented_archite.Publisher.Registry.{
  Request, set_compatibility, register, Registry, SchemaInfo, Registering, and_then, register_text,
  register_files,
}

-- Whether the level of a subject has been asked for in the requests so far.
abbrev pub level_set : String → List Request → Bool
level_set subject [] = false
level_set subject (set_compatibility s level ∷ past) =
    subject == s && level == "BACKWARD" || level_set subject past
level_set subject (register s text ∷ past) = level_set subject past

-- No schema is registered under a subject whose level has not been asked for before.
abbrev pub Covered : List Request → Type 0
Covered [] = Unit
Covered (set_compatibility s level ∷ past) = Covered past
Covered (register s text ∷ past) = (level_set s past ≡ true) × Covered past

-- The requests are covered, and a result has a property.
abbrev pub Gives : {A : Type 0} → (A → List Request → Type 0) → Registering A → Type 0
Gives P (none, requests) = Covered requests
Gives P (some a, requests) = Covered requests × P a requests

pub and_then-Gives :
    {A B : Type 0} (P : A → List Request → Type 0) (Q : B → List Request → Type 0)
    (x : Registering A) (f : A → List Request → Registering B)
    → Gives P x
    → ((a : A) (requests : List Request) → Covered requests → P a requests → Gives Q (f a requests))
    → Gives Q (and_then x f)
unfolding and_then
and_then-Gives P Q (none, requests) f h k = h
and_then-Gives P Q (some a, requests) f (h, p) k = k a requests h p

-- A schema that the text of a file was registered as.
pub record IsOf (sr : Registry) (subject : String) (file : String) (info : SchemaInfo)
    : Type 0 where
  pub text : String
  pub is_text : sr.read_text file ≡ some text
  pub schema_str : info.schema_str ≡ some text
  pub schema_id : info.schema_id ≡ sr.register_schema subject text
  pub of_subject : info.subject ≡ subject

-- The schema of the last file, or the one to start from if there is no file.
abbrev pub IsLatest : Registry → String → SchemaInfo → List String → SchemaInfo → Type 0
IsLatest sr subject start [] info = info ≡ start
IsLatest sr subject start (f ∷ []) info = IsOf sr subject f info
IsLatest sr subject start (f ∷ g ∷ rest) info = IsLatest sr subject start (g ∷ rest) info

module _ (sr : Registry) (subject : String) where
  register_text-Gives :
      (f : String) (o : Option String) (requests : List Request)
      → sr.read_text f ≡ o
      → level_set subject requests ≡ true
      → Covered requests
      → Gives
          (λ info r. (level_set subject r ≡ true) × IsOf sr subject f info)
          (register_text sr subject o requests)
  unfolding register_text
  register_text-Gives f none requests h level c = c
  register_text-Gives f (some text) requests h level c =
      elim (Option-cases (sr.register_schema subject text)) [
        | inl refused ↦ rw (refused, register_text) (level, c)
        | inr (id, given) ↦
            rw (given, register_text)
              (
                (level, c),
                (
                  level,
                  record {
                    text = text;
                    is_text = h;
                    schema_str = refl;
                    schema_id = sym given;
                    of_subject = refl;
                  },
                ),
              )
      ]

  IsLatest-or_other :
      (start other : SchemaInfo) (f : String) (rest : List String) (info : SchemaInfo)
      → IsLatest sr subject start (f ∷ rest) info
      → IsLatest sr subject other (f ∷ rest) info
  IsLatest-or_other start other f [] info h = h
  IsLatest-or_other start other f (g ∷ rest) info h = IsLatest-or_other start other g rest info h

  IsLatest-cons :
      (start first : SchemaInfo) (f : String) (rest : List String) (info : SchemaInfo)
      → IsOf sr subject f first
      → IsLatest sr subject first rest info
      → IsLatest sr subject start (f ∷ rest) info
  IsLatest-cons start first f [] info h k = subst (IsOf sr subject f) (sym k) h
  IsLatest-cons start first f (g ∷ rest) info h k = IsLatest-or_other first start g rest info k

  pub register_files-Gives :
      (files : List String) (start : SchemaInfo) (requests : List Request)
      → level_set subject requests ≡ true
      → Covered requests
      → Gives
          (λ info r. IsLatest sr subject start files info)
          (register_files sr subject files start requests)
  unfolding register_files
  register_files-Gives [] start requests level c = (c, refl)
  register_files-Gives (f ∷ rest) start requests level c =
      and_then-Gives (λ info r. (level_set subject r ≡ true) × IsOf sr subject f info)
        (λ info r. IsLatest sr subject start (f ∷ rest) info)
        (register_text sr subject (sr.read_text f) requests) (register_files sr subject rest)
        (register_text-Gives f (sr.read_text f) requests refl level c)
        (λ first r c' h.
          after first r (register_files sr subject rest first r) h.1
            (register_files-Gives rest first r h.0 c'))
    where
      after :
          (first : SchemaInfo) (r : List Request) (x : Registering SchemaInfo)
          → IsOf sr subject f first
          → Gives (λ info r'. IsLatest sr subject first rest info) x
          → Gives (λ info r'. IsLatest sr subject start (f ∷ rest) info) x
      after first r (none, r') h g = g
      after first r (some info, r') h (g, k) = (g, IsLatest-cons start first f rest info h k)
