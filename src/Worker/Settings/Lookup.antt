-- ===== src/Worker/Settings/Lookup.antt =====
-- What the map of the adapters gives for a name (services/worker/src/config.rs).
use pqc_sec_inspection_cours.Prelude.{
  Each, filter_map-All, ◌≡◌, refl, sym, ap, subst, Option-cases, ◌∙◌, arith, inl, inr, Bool, true,
  false, ◌&&◌, Option, none, some, List, [], ◌∷◌, All, is_empty, Text, codes, text_eq, text_eq_iff,
  trim, split_on, split_once, or_else, ◌==◌, Bool-cases, if◌then◌else◌,
}
use pqc_sec_inspection_cours.Worker.Adapters.{lookup}
use pqc_sec_inspection_cours.Worker.Settings.{
  Config, trim_slashes, kept, entry_of, text_lt, insert_key, collect_from, entries_of, adapter_map,
}

-- The value of the last entry of that name.
abbrev pub last_value : Text → List (Text × Text) → Option Text
last_value name [] = none
last_value name ((k, v) ∷ entries) =
    or_else (last_value name entries) (if text_eq k name then some v else none)

insert_key-same :
    (k v j w : Text) (m : List (Text × Text))
    → text_eq j k ≡ true
    → insert_key (k, v) ((j, w) ∷ m) ≡ (k, v) ∷ m
unfolding insert_key
insert_key-same k v j w m h = rw (h, insert_key) refl

insert_key-before :
    (k v j w : Text) (m : List (Text × Text))
    → text_eq j k ≡ false
    → text_lt k j ≡ true
    → insert_key (k, v) ((j, w) ∷ m) ≡ (k, v) ∷ (j, w) ∷ m
unfolding insert_key
insert_key-before k v j w m h l = rw (h, l, insert_key) refl

insert_key-after :
    (k v j w : Text) (m : List (Text × Text))
    → text_eq j k ≡ false
    → text_lt k j ≡ false
    → insert_key (k, v) ((j, w) ∷ m) ≡ (j, w) ∷ insert_key (k, v) m
unfolding insert_key
insert_key-after k v j w m h l = rw (h, l, insert_key) refl

-- Two tests for one name, where the names differ.
swap_tests :
    {A : Type 0} (j k name : Text) (x y z : A)
    → text_eq j k ≡ false
    → (if text_eq j name then x else if text_eq k name then y else z)
      ≡ (if text_eq k name then y else if text_eq j name then x else z)
swap_tests j k name x y z h = elim (Bool-cases (text_eq j name)) [
  | inr e ↦ rw e refl
  | inl e ↦ elim (Bool-cases (text_eq k name)) [
    | inr f ↦ rw (e, f) refl
    | inl f ↦
        (let same =
            (text_eq_iff j k).1 ((text_eq_iff j name).0 e ∙ sym ((text_eq_iff k name).0 f)) in
          cc)
  ]
]

-- The first of two entries for one name counts.
drop_test :
    {A : Type 0} (j k name : Text) (x y z : A)
    → j ≡ k
    → (if text_eq k name then y else z)
      ≡ (if text_eq k name then y else if text_eq j name then x else z)
drop_test j k name x y z h = elim (Bool-cases (text_eq k name)) [
  | inl e ↦ rw e refl
  | inr e ↦ rw (e, h, e) refl
]

lookup-insert_key :
    (name k v : Text) (m : List (Text × Text))
    → lookup name (insert_key (k, v) m) ≡ (if text_eq k name then some v else lookup name m)
unfolding lookup
lookup-insert_key name k v [] = unfold insert_key in refl
lookup-insert_key name k v ((j, w) ∷ m) = elim (Bool-cases (text_eq j k)) [
  | inl e ↦
      ap (lookup name) (insert_key-same k v j w m e)
      ∙ drop_test j k name (some w) (some v) (lookup name m) ((text_eq_iff j k).0 e)
  | inr e ↦ elim (Bool-cases (text_lt k j)) [
    | inl l ↦ ap (lookup name) (insert_key-before k v j w m e l)
    | inr l ↦
        ap (lookup name) (insert_key-after k v j w m e l)
        ∙ ap (λ o. if text_eq j name then some w else o) (lookup-insert_key name k v m)
        ∙ swap_tests j k name (some w) (some v) (lookup name m) e
  ]
]

lookup-collect_from :
    (name : Text) (m entries : List (Text × Text))
    → lookup name (collect_from m entries) ≡ or_else (last_value name entries) (lookup name m)
unfolding collect_from
lookup-collect_from name m [] = refl
lookup-collect_from name m ((k, v) ∷ entries) =
    lookup-collect_from name (insert_key (k, v) m) entries
    ∙ rw (lookup-insert_key name k v m) (later (last_value name entries) (text_eq k name))
  where
    later :
        (found : Option Text) (b : Bool)
        → or_else found (if b then some v else lookup name m)
          ≡ or_else (or_else found (if b then some v else none)) (lookup name m)
    later none true = refl
    later none false = refl
    later (some _) b = refl

abbrev pub ends_in_slash : Text → Bool
ends_in_slash [] = false
ends_in_slash (c ∷ []) = c == b'/'
ends_in_slash (_ ∷ d ∷ s) = ends_in_slash (d ∷ s)

ends_in_slash-trim_slashes : (s : Text) → ends_in_slash (trim_slashes s) ≡ false
unfolding trim_slashes
ends_in_slash-trim_slashes [] = refl
ends_in_slash-trim_slashes (c ∷ s) = ends (trim_slashes s) (ends_in_slash-trim_slashes s)
  where
    ends :
        (rest : Text)
        → ends_in_slash rest ≡ false
        → ends_in_slash (if c == b'/' && is_empty rest then [] else c ∷ rest) ≡ false
    ends [] h = ground arith
    ends (d ∷ rest) h = ground arith

-- An entry that is kept has a name and an address, and the address does not end in a slash.
abbrev pub IsKept : Text → Text → Type 0
IsKept name url = (is_empty name ≡ false) × (is_empty url ≡ false) × (ends_in_slash url ≡ false)

kept-IsKept :
    (name url : Text) → ends_in_slash url ≡ false → Each (λ e. IsKept e.0 e.1) (kept (name, url))
kept-IsKept [] url h = tt
kept-IsKept (c ∷ name) [] h = tt
kept-IsKept (c ∷ name) (d ∷ url) h = (refl, refl, h)

entry_of-IsKept : (entry : Text) → Each (λ e. IsKept e.0 e.1) (entry_of entry)
unfolding entry_of
entry_of-IsKept entry = elim (Option-cases (split_once entry (codes "="))) [
  | inl e ↦ rw (e, entry_of) tt
  | inr (parts, e) ↦
      rw (e, entry_of)
        (kept-IsKept (trim parts.0) (trim_slashes (trim parts.1))
          (ends_in_slash-trim_slashes (trim parts.1)))
]

last_value-IsKept :
    (name : Text) {url : Text} (entries : List (Text × Text))
    → All (λ e. IsKept e.0 e.1) entries
    → last_value name entries ≡ some url
    → IsKept name url
last_value-IsKept name [] h e = cc
last_value-IsKept name {url} ((k, v) ∷ entries) (h, more) e =
    elim (Option-cases (last_value name entries)) [
      | inr (u, q) ↦ last_value-IsKept name entries more (q ∙ (rw q at e))
      | inl q ↦ elim (Bool-cases (text_eq k name)) [
        | inr f ↦ (let none_found = rw (q, f) at e in cc)
        | inl f ↦
            (let v_is_url : v ≡ url = (let found = rw (q, f) at e in cc) in
              subst (λ n. IsKept n url) ((text_eq_iff k name).0 f) (subst (IsKept k) v_is_url h))
      ]
    ]

-- The map of the adapters gives for a name the address of the last entry that has it, and none
-- where no entry has; an address that it gives is not empty and does not end in a slash, and its
-- name is not empty.
pub lookup-adapter_map :
    (config : Config) (name : Text)
    → (lookup name (adapter_map config) ≡ last_value name (entries_of config.adapters))
      × ((url : Text) → lookup name (adapter_map config) ≡ some url → IsKept name url)
unfolding adapter_map
lookup-adapter_map config name =
    let found =
      lookup-collect_from name [] (entries_of config.adapters)
      ∙ or_none (last_value name (entries_of config.adapters)) in
    (
      found,
      λ url e.
          last_value-IsKept name (entries_of config.adapters)
            (filter_map-All (λ e. IsKept e.0 e.1) entry_of entry_of-IsKept
              (split_on b',' config.adapters))
            (sym found ∙ e),
    )
  where
    or_none : (o : Option Text) → or_else o (lookup name []) ≡ o
    or_none none = unfold lookup in refl
    or_none (some t) = refl
