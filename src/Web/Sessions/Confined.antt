-- ===== src/Web/Sessions/Confined.antt =====
-- internal/web/server.go: the paths that `resolveSessionPath` accepts.
use logfalcon.Prelude.{
  ℕ, ◌≤◌, ◌≡◌, refl, true, false, ◌||◌, Option, none, some, List, [], ◌∷◌, ◌++◌, arith, ◌==◌, on_if,
  bytes_eq, length, All, All-append, length-append,
}
use logfalcon.Web.Text.{has_prefix, split}
use logfalcon.Web.Files.Range.{Lacks}
use logfalcon.Web.Sessions.{
  CleanPath, has_dots, component, path_text, Places, or_else, under_root, resolve_names,
  resolve_parts, resolve_session_path,
}
use mathlib.Core.List.{append_assoc}

pub split_Lack : (sep : ℕ) (s : List ℕ) → All (Lacks sep) (split sep s)
unfolding split
split_Lack sep [] = (tt, tt)
split_Lack sep (c ∷ s) =
    on_if (All (Lacks sep)) (c == sep) _ _ (λ e. (tt, split_Lack sep s))
      (λ e. longer (split sep s) e (split_Lack sep s))
  where
    longer :
        (r : List (List ℕ))
        → (c == sep) ≡ false
        → All (Lacks sep) r
        → All (Lacks sep) (elim r [ [] ↦ (c ∷ []) ∷ [] | part ∷ parts ↦ (c ∷ part) ∷ parts ])
    longer [] e h = ((e, tt), tt)
    longer (part ∷ parts) e h = ((e, h.0), h.1)

-- A component that stays where it is: it holds no slash and no two dots.
abbrev pub IsPlain : List ℕ → Type 0
IsPlain name = Lacks b'/' name × (has_dots name ≡ false)

component-IsPlain : (name : List ℕ) → IsPlain name → All IsPlain (component name)
unfolding component
component-IsPlain name h =
    on_if (All IsPlain) (bytes_eq name [] || bytes_eq name (b'.' ∷ [])) _ _ (λ _. tt) (λ _. (h, tt))

length-component : (name : List ℕ) → length (component name) ≤ 1
unfolding component
length-component name = ground arith

-- An accepted path: it is the storage root or lies at most two plain components below, and where its
-- symbolic links lead begins, as a text, with where those of the storage root lead.
abbrev pub IsConfined : Places → Option CleanPath → Type 0
IsConfined places none = Unit {0}
IsConfined places (some p) =
    (storage : CleanPath) × (suffix : CleanPath) × ((places.abs_storage ≡ some storage)
      × ((p ≡ storage ++ suffix)
          × ((length suffix ≤ 2)
              × (All IsPlain suffix
                  × (has_prefix (path_text (or_else (places.eval_symlinks p) p))
                        (path_text (or_else (places.eval_symlinks storage) storage))
                      ≡ true)))))

resolve_names-IsConfined :
    (places : Places) (fc name : List ℕ) (storage : Option CleanPath)
    → places.abs_storage ≡ storage
    → Lacks b'/' fc
    → Lacks b'/' name
    → IsConfined places (resolve_names places fc name storage)
unfolding resolve_names under_root
resolve_names-IsConfined places fc name none e k l = tt
resolve_names-IsConfined places fc name (some storage) e k l =
    let p = storage ++ component fc ++ component name in
    on_if (IsConfined places) (has_dots fc || has_dots name) _ _ (λ _. tt)
      (λ plain.
        on_if (IsConfined places)
          (has_prefix (path_text (or_else (places.eval_symlinks p) p))
            (path_text (or_else (places.eval_symlinks storage) storage)))
          _ _
          (λ inside. (
            storage,
            component fc ++ component name,
            (
              e,
              (
                append_assoc storage (component fc) (component name),
                (
                  omega (
                    arith,
                    length-component fc,
                    length-component name,
                    length-append (component fc) (component name),
                  ),
                  (
                    All-append IsPlain (component fc) (component name)
                        (component-IsPlain fc (k, (no_dots plain).0))
                        (component-IsPlain name (l, (no_dots plain).1)),
                    inside,
                  ),
                ),
              ),
            ),
          ))
          (λ _. tt))
  where
    no_dots :
        (has_dots fc || has_dots name) ≡ false → (has_dots fc ≡ false) × (has_dots name ≡ false)
    no_dots h = ground (arith, h)

resolve_parts-IsConfined :
    (places : Places) (parts : List (List ℕ))
    → All (Lacks b'/') parts
    → IsConfined places (resolve_parts places parts)
unfolding resolve_parts
resolve_parts-IsConfined places [] h = tt
resolve_parts-IsConfined places (fc ∷ []) h = tt
resolve_parts-IsConfined places (fc ∷ name ∷ []) h =
    resolve_names-IsConfined places fc name places.abs_storage refl h.0 h.1.0
resolve_parts-IsConfined places (fc ∷ name ∷ more ∷ parts) h = tt

-- A path that `resolveSessionPath` accepts is the storage root itself or lies at most two components below
-- it, none of which holds a slash or two dots in a row; and where its symbolic links lead begins, as a text,
-- with where those of the storage root lead.
pub resolve_session_path-IsConfined :
    (places : Places) (session_id : List ℕ)
    → IsConfined places (resolve_session_path places session_id)
unfolding resolve_session_path
resolve_session_path-IsConfined places session_id =
    resolve_parts-IsConfined places (split b'/' session_id) (split_Lack b'/' session_id)
