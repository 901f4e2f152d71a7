-- ===== src/Board/Metadata.antt =====
-- Records as JavaScript objects, src/taskBoard.ts: spreading one into another, deleting keys, and
-- what is looked up afterwards.
use arch_loop.Prelude.{
  ◌==◌, String, Option, none, some, List, [], ◌∷◌, if◌then◌else◌, Bool-cases, or_option, ◌≡◌, refl,
  sym, ◌∙◌, eq_iff, inl, inr, or_option-none,
}
use arch_loop.Prelude.Json.{Json, Fields, end, field, member}
use arch_loop.Board.{among}

-- `delete record[key]`
unfoldable pub delete_key : String → Fields → Fields
delete_key k end = end
delete_key k (field l v fs) = let rest = delete_key k fs in if l == k then rest else field l v rest

-- `deleteMetadataKeys`
unfoldable pub delete_keys : List String → Fields → Fields
unfolding delete_key
delete_keys [] fs = fs
delete_keys (k ∷ ks) fs = delete_keys ks (delete_key k fs)

abbrev json_or : Option Json → Json → Json
json_or none v = v
json_or (some w) v = w

-- `{ ...left, ...right }`: the keys of the left one keep their places
unfoldable pub spread : Fields → Fields → Fields
unfolding delete_key
spread end b = b
spread (field k v a) b = field k (json_or (member k b) v) (spread a (delete_key k b))

-- `record[key] = value`
unfoldable pub set_key : String → Json → Fields → Fields
unfolding spread
set_key k v fs = spread fs (field k v end)

-- `Object.keys`
abbrev pub keys : Fields → List String
keys end = []
keys (field k v fs) = k ∷ keys fs

pub member-delete_key :
    (x k : String) (fs : Fields)
    → member x (delete_key k fs) ≡ (if k == x then none else member x fs)
unfolding delete_key
member-delete_key x k end = elim (Bool-cases (k == x)) [ inl h ↦ rw h refl | inr h ↦ rw h refl ]
member-delete_key x k (field l v fs) = elim (Bool-cases (l == k)) [
  | inl a ↦ elim (Bool-cases (k == x)) [
    | inl h ↦ rw (a, member-delete_key x k fs, h) refl
    | inr h ↦ rw (a, member-delete_key x k fs, (eq_iff l k).0 a, h) refl
  ]
  | inr a ↦ elim (Bool-cases (k == x)) [
    | inl h ↦ rw (a, h, member-delete_key x k fs, h, ← (eq_iff k x).0 h, a) refl
    | inr h ↦ rw (a, h, member-delete_key x k fs, h) refl
  ]
]

pub member-delete_keys :
    (x : String) (ks : List String) (fs : Fields)
    → member x (delete_keys ks fs) ≡ (if among ks x then none else member x fs)
unfolding delete_keys
member-delete_keys x [] fs = refl
member-delete_keys x (k ∷ ks) fs =
    let e = member-delete_keys x ks (delete_key k fs) in
    elim (Bool-cases (k == x)) [
      | inl h ↦ elim (Bool-cases (among ks x)) [
        | inl m ↦ rw (e, h, m) refl
        | inr m ↦ rw (e, h, m, member-delete_key x k fs, h) refl
      ]
      | inr h ↦ rw (e, h, member-delete_key x k fs, h) refl
    ]

json_or_lem : (o : Option Json) (v : Json) → some (json_or o v) ≡ or_option o (some v)
json_or_lem none v = refl
json_or_lem (some w) v = refl

pub member-spread :
    (x : String) (a b : Fields) → member x (spread a b) ≡ or_option (member x b) (member x a)
unfolding spread
member-spread x end b = sym (or_option-none (member x b))
member-spread x (field k v a) b = elim (Bool-cases (k == x)) [
  | inl h ↦ rw (h, (eq_iff k x).0 h) (json_or_lem (member x b) v)
  | inr h ↦ rw (h, member-spread x a (delete_key k b), member-delete_key x k b, h) refl
]

pub member-set_key :
    (x k : String) (v : Json) (fs : Fields)
    → member x (set_key k v fs) ≡ (if k == x then some v else member x fs)
unfolding set_key
member-set_key x k v fs =
    member-spread x fs (field k v end)
    ∙ (elim (Bool-cases (k == x)) [ inl h ↦ rw h refl | inr h ↦ rw h refl ])
