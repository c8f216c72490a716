-- ===== src/Config/Split.antt =====
-- `_split` of src/common/ConfigParser.cpp, on the bytes of the text, and that it undoes the joining of
-- fields.
use memory_tiering.Base.{
  ℕ, ◌≡◌, ◌≢◌, refl, ap, ◌∙◌, List, [], ◌∷◌, ◌++◌, ◌==◌, if◌then◌else◌, ==-true, ==-false,
  append_assoc,
}

-- What is left of a line at its end: `getline` fails on nothing.
abbrev last_item : List ℕ → List (List ℕ)
last_item [] = []
last_item (c ∷ cs) = (c ∷ cs) ∷ []

-- `getline` up to the delimiter, from the characters read since the last one.
unfoldable pub split_from : (delim : ℕ) → (item s : List ℕ) → List (List ℕ)
split_from delim item [] = last_item item
split_from delim item (c ∷ s) =
    if c == delim then item ∷ split_from delim [] s else split_from delim (item ++ (c ∷ [])) s

unfoldable pub split : (delim : ℕ) → List ℕ → List (List ℕ)
split delim s = split_from delim [] s

-- No field is empty or contains the delimiter.
pub data IsField (delim : ℕ) : List ℕ → Type 0 where
  one : {c : ℕ} → c ≢ delim → IsField delim (c ∷ [])
  more : {c : ℕ} {cs : List ℕ} → c ≢ delim → IsField delim cs → IsField delim (c ∷ cs)

pub data AllFields (delim : ℕ) : List (List ℕ) → Type 0 where
  no_fields : AllFields delim []
  and_fields :
      {f : List ℕ} {fs : List (List ℕ)}
      → IsField delim f
      → AllFields delim fs
      → AllFields delim (f ∷ fs)

-- The fields with one delimiter between each and the next.
abbrev pub join : (delim : ℕ) → List (List ℕ) → List ℕ
join delim [] = []
join delim (f ∷ []) = f
join delim (f ∷ (g ∷ fs)) = f ++ (delim ∷ join delim (g ∷ fs))

module _ (delim : ℕ) where
  split_from-field :
      (item f rest : List ℕ)
      → IsField delim f
      → split_from delim item (f ++ (delim ∷ rest)) ≡ (item ++ f) ∷ split_from delim [] rest
  unfolding split_from
  split_from-field item [] rest h = elim h [ ]
  split_from-field item (c ∷ []) rest (one h) =
      rw (==-false c delim h, ==-true delim delim refl) refl
  split_from-field item (c ∷ cs) rest (more h field) =
      let rest_lem = split_from-field (item ++ (c ∷ [])) cs rest field in
      rw (==-false c delim h, rest_lem, append_assoc item (c ∷ []) cs) refl

  split_from-last : (item f : List ℕ) → IsField delim f → split_from delim item f ≡ (item ++ f) ∷ []
  unfolding split_from
  split_from-last item [] h = elim h [ ]
  split_from-last [] (c ∷ []) (one h) = rw (==-false c delim h) refl
  split_from-last (i ∷ is) (c ∷ []) (one h) = rw (==-false c delim h) refl
  split_from-last item (c ∷ cs) (more h field) =
      let rest_lem = split_from-last (item ++ (c ∷ [])) cs field in
      rw (==-false c delim h, rest_lem, append_assoc item (c ∷ []) cs) refl

  -- Fields that are not empty and do not contain the delimiter, joined by it, split into themselves.
  pub split-join : (fs : List (List ℕ)) → AllFields delim fs → split delim (join delim fs) ≡ fs
  unfolding split split_from
  split-join [] no_fields = refl
  split-join (f ∷ []) (and_fields field no_fields) = split_from-last [] f field
  split-join (f ∷ (g ∷ fs)) (and_fields field (and_fields field' fields)) =
      split_from-field [] f (join delim (g ∷ fs)) field
      ∙ ap (λ l. f ∷ l) (split-join (g ∷ fs) (and_fields field' fields))
