-- ===== src/Web/Deletion/Guarded.antt =====
-- internal/web/server.go: what `handleDeleteSession` removes, and when.
use logfalcon.Prelude.{
  ℕ, ◌≡◌, ◌≢◌, refl, sym, ◌⊎◌, inl, inr, Bool, true, false, not, Option, none, some, List, [], ◌∷◌,
  arith, if◌then◌else◌, ◌&&◌, on_if, bytes_eq, bytes_eq_sound, and_true, All, Bool-cases,
}
use logfalcon.Web.Text.{trim_prefix}
use logfalcon.Web.Sessions.{CleanPath, Places, resolve_session_path}
use logfalcon.Web.Deletion.{
  path_eq, is_below, any_path, keep_paths, parent_of, Removal, all_goes, stays, Site, survives,
  is_child, remove_empty_parent, after_removal, delete_path, sessions_prefix, handle_delete_session,
}
use mathlib.Core.Path.{subst}
use mathlib.Core.List.{Memᴰ}
use mathlib.Core.List.Memᴰ

-- The tree `after` lacks nothing of the tree `before` but what `lost` allows, and has nothing else.
abbrev Loses : (CleanPath → Type 0) → List CleanPath → List CleanPath → Type 0
Loses lost before after =
    ((q : CleanPath) → Memᴰ q after → Memᴰ q before)
    × ((q : CleanPath) → Memᴰ q before → Memᴰ q after ⊎ lost q)

kept_one : (b : Bool) (x q : CleanPath) → Memᴰ q (if b then x ∷ [] else []) → q ≡ x
kept_one true x q i = Memᴰ.eq_of_singleton i
kept_one false x q i = absurd (Memᴰ.not-nil i)

keep_paths_sub :
    (p : CleanPath → Bool) (l : List CleanPath) (q : CleanPath) → Memᴰ q (keep_paths p l) → Memᴰ q l
unfolding keep_paths
keep_paths_sub p [] q i = i
keep_paths_sub p (x ∷ xs) q i = elim (Memᴰ.append_cases (if p x then x ∷ [] else []) i) [
  | inl j ↦ Memᴰ.head (kept_one (p x) x q j)
  | inr j ↦ Memᴰ.tail (keep_paths_sub p xs q j)
]

keep_paths_mem :
    (p : CleanPath → Bool) (l : List CleanPath) (q : CleanPath)
    → Memᴰ q l
    → p q ≡ true
    → Memᴰ q (keep_paths p l)
unfolding keep_paths
keep_paths_mem p [] q i e = i
keep_paths_mem p (x ∷ xs) q (Memᴰ.head h) e = rw (sym h, e) (Memᴰ.head refl)
keep_paths_mem p (x ∷ xs) q (Memᴰ.tail i) e =
    Memᴰ.append_right (if p x then x ∷ [] else []) (keep_paths_mem p xs q i e)

keep_paths-Loses :
    (p : CleanPath → Bool) (l : List CleanPath) → Loses (λ q. p q ≡ false) l (keep_paths p l)
keep_paths-Loses p l = (
  keep_paths_sub p l,
  λ q i. elim (Bool-cases (p q)) [ inl e ↦ inl (keep_paths_mem p l q i e) | inr e ↦ inr e ],
)

Loses-trans :
    (lost : CleanPath → Type 0) (a b c : List CleanPath)
    → Loses lost a b
    → Loses lost b c
    → Loses lost a c
Loses-trans lost a b c h k =
    ((λ q i. h.0 q (k.0 q i)), λ q i. elim (h.1 q i) [ inl j ↦ k.1 q j | inr l ↦ inr l ])

Loses-weaken :
    (lost lost' : CleanPath → Type 0) (a b : List CleanPath)
    → ((q : CleanPath) → lost q → lost' q)
    → Loses lost a b
    → Loses lost' a b
Loses-weaken lost lost' a b f h =
    (h.0, λ q i. elim (h.1 q i) [ inl j ↦ inl j | inr l ↦ inr (f q l) ])

-- What a deletion of `p` that leaves the tree `after` may take away: what is at `p` or below, and its
-- parent, where nothing is left below that.
abbrev pub Lost : CleanPath → List CleanPath → CleanPath → Type 0
Lost p after q =
    (is_below p q ≡ true) ⊎ ((q ≡ parent_of p) × All (λ r. is_below (parent_of p) r ≡ false) after)

survives-Lost :
    (r : Removal) (p : CleanPath) (after : List CleanPath) (q : CleanPath)
    → survives r p q ≡ false
    → Lost p after q
unfolding survives
survives-Lost all_goes p after q h = inl (ground (arith, h))
survives-Lost (stays left) p after q h = inl (ground (arith, h))

path_eq_sound : (p q : CleanPath) → path_eq p q ≡ true → p ≡ q
unfolding path_eq
path_eq_sound [] [] h = refl
path_eq_sound [] (d ∷ q) h = cc h
path_eq_sound (c ∷ p) [] h = cc h
path_eq_sound (c ∷ p) (d ∷ q) h =
    let (e, t) = and_true (bytes_eq c d) (path_eq p q) h in
    cc (bytes_eq_sound c d e, path_eq_sound p q t)

not-false : (b : Bool) → not b ≡ false → b ≡ true
not-false b h = ground arith

kept_true :
    (f : CleanPath → Bool) (x q : CleanPath) → Memᴰ q (if f x then x ∷ [] else []) → f q ≡ true
kept_true f x q i = elim (Bool-cases (f x)) [
  | inl e ↦ let same = kept_one (f x) x q i in rw same e
  | inr e ↦ absurd (Memᴰ.not-nil (rw e at i))
]

keep_paths-true :
    (f : CleanPath → Bool) (l : List CleanPath) (q : CleanPath)
    → Memᴰ q (keep_paths f l)
    → f q ≡ true
unfolding keep_paths
keep_paths-true f [] q i = absurd (Memᴰ.not-nil i)
keep_paths-true f (x ∷ xs) q i = elim (Memᴰ.append_cases (if f x then x ∷ [] else []) i) [
  | inl j ↦ kept_true f x q j
  | inr j ↦ keep_paths-true f xs q j
]

module _ {A : Type 0} where
  All-of_mem : (P : A → Type 0) (l : List A) → ((x : A) → Memᴰ x l → P x) → All P l
  All-of_mem P [] h = tt
  All-of_mem P (x ∷ xs) h = (h x (Memᴰ.head refl), All-of_mem P xs (λ y i. h y (Memᴰ.tail i)))

any_path-false :
    (p : CleanPath → Bool) (l : List CleanPath) (q : CleanPath)
    → any_path p l ≡ false
    → Memᴰ q l
    → p q ≡ false
unfolding any_path
any_path-false p [] q e i = absurd (Memᴰ.not-nil i)
any_path-false p (x ∷ xs) q e i = elim (Bool-cases (p x)) [
  | inl t ↦ absurd (cc (rw t at e))
  | inr f ↦ elim i [
    | Memᴰ.head h ↦ rw (h, f) refl
    | Memᴰ.tail j ↦ any_path-false p xs q (rw f at e) j
  ]
]

-- Without its children, and itself, nothing of the parent is left.
parent_cleared :
    (parent : CleanPath) (l : List CleanPath)
    → any_path (is_child parent) l ≡ false
    → All (λ r. is_below parent r ≡ false) (keep_paths (λ q. not (path_eq parent q)) l)
parent_cleared parent l e =
    All-of_mem (λ r. is_below parent r ≡ false) _
      (λ q i.
        let kept = keep_paths-true (λ q. not (path_eq parent q)) l q i in
        let child =
          any_path-false (is_child parent) l q e
            (keep_paths_sub (λ q. not (path_eq parent q)) l q i) in
        below (is_below parent q) (path_eq parent q) kept child)
  where
    below : (b c : Bool) → not c ≡ true → (b && not c) ≡ false → b ≡ false
    below b c h k = ground arith

parent_Lost :
    (p : CleanPath) (after : List CleanPath) (q : CleanPath)
    → All (λ r. is_below (parent_of p) r ≡ false) after
    → not (path_eq (parent_of p) q) ≡ false
    → Lost p after q
parent_Lost p after q c h = inr (sym (path_eq_sound (parent_of p) q (not-false _ h)), c)

remove_empty_parent-Loses :
    (p : CleanPath) (s : Site)
    → (let r = remove_empty_parent (parent_of p) s in Loses (Lost p r.tree) s.tree r.tree)
unfolding remove_empty_parent
remove_empty_parent-Loses p s =
    on_if {A = Site} (λ r. Loses (Lost p r.tree) s.tree r.tree)
      (any_path (is_child (parent_of p)) s.tree) _ _ (λ _. same)
      (λ e.
        on_if {A = Site} (λ r. Loses (Lost p r.tree) s.tree r.tree) s.rmdir_good _ _
          (λ _.
            Loses-weaken _ (Lost p _) s.tree _
              (λ q. parent_Lost p _ q (parent_cleared (parent_of p) s.tree e))
              (keep_paths-Loses (λ q. not (path_eq (parent_of p) q)) s.tree))
          (λ _. same))
  where
    same : Loses (Lost p s.tree) s.tree s.tree
    same = ((λ q i. i), λ q i. inl i)

remove_all_Loses :
    (r : Removal) (p : CleanPath) (after l : List CleanPath)
    → Loses (Lost p after) l (keep_paths (survives r p) l)
remove_all_Loses r p after l =
    Loses-weaken _ (Lost p after) l _ (survives-Lost r p after) (keep_paths-Loses (survives r p) l)

-- Nothing at or below `p` is left.
abbrev Cleared : CleanPath → List CleanPath → Type 0
Cleared p l = (q : CleanPath) → Memᴰ q l → is_below p q ≡ false

remove_all_Cleared :
    (p : CleanPath) (l : List CleanPath) → Cleared p (keep_paths (survives all_goes p) l)
unfolding survives
remove_all_Cleared p l q i = ground (arith, keep_paths-true (survives all_goes p) l q i)

-- The tree after the deletion of `p` has nothing new, and what it lacks is `p`, below it, or its parent,
-- below which nothing is left then.
abbrev pub LosesOnly : CleanPath → List CleanPath → List CleanPath → Type 0
LosesOnly p before after =
    All (λ q. Memᴰ q before) after × All (λ q. Memᴰ q after ⊎ Lost p after q) before

loses_only :
    (p : CleanPath) (before after : List CleanPath)
    → Loses (Lost p after) before after
    → LosesOnly p before after
loses_only p before after h = (
  All-of_mem (λ q. Memᴰ q before) after h.0,
  All-of_mem (λ q. Memᴰ q after ⊎ Lost p after q) before h.1,
)

-- What a request to delete did: it was refused, and nothing is changed; or it had the token and named a path
-- that is accepted, and only that path, what is below it and its parent, if it is empty then, can be gone from the disk: all of
-- what is at the path or below with the status 200, after which the cache of sessions is not used again.
pub data Deleted (places : Places) (csrf_token header session_id : List ℕ) (s : Site)
    : ℕ × Site → Type 0 where
  declined : (status : ℕ) → status ≢ 200 → Deleted places csrf_token header session_id s (status, s)
  failed :
      (p : CleanPath) (s' : Site)
      → header ≡ csrf_token
      → resolve_session_path places session_id ≡ some p
      → LosesOnly p s.tree s'.tree
      → Deleted places csrf_token header session_id s (500, s')
  finished :
      (p : CleanPath) (s' : Site)
      → header ≡ csrf_token
      → resolve_session_path places session_id ≡ some p
      → LosesOnly p s.tree s'.tree
      → All (λ q. is_below p q ≡ false) s'.tree
      → s'.cache_kept ≡ false
      → Deleted places csrf_token header session_id s (200, s')

module _ (places : Places) (csrf_token header session_id : List ℕ) (s : Site)
    (same : header ≡ csrf_token) where
  after_removal-Deleted :
      (r : Removal) (p : CleanPath) (s' : Site)
      → resolve_session_path places session_id ≡ some p
      → s'.tree ≡ keep_paths (survives r p) s.tree
      → Deleted places csrf_token header session_id s (after_removal r p s')
  unfolding after_removal
  after_removal-Deleted (stays left) p s' e t =
      failed p s' same e (rw t (loses_only p s.tree _ (remove_all_Loses (stays left) p _ s.tree)))
  after_removal-Deleted all_goes p s' e t =
      let after = (remove_empty_parent (parent_of p) s').tree in
      let gone : Loses (Lost p after) s.tree s'.tree =
        subst (Loses (Lost p after) s.tree) (sym t) (remove_all_Loses all_goes p after s.tree) in
      let more = remove_empty_parent-Loses p s' in
      finished p (record (remove_empty_parent (parent_of p) s') { cache_kept = false }) same e
        (loses_only p s.tree _ (Loses-trans (Lost p after) s.tree s'.tree _ gone more))
        (All-of_mem (λ q. is_below p q ≡ false) _
          (λ q i. remove_all_Cleared p s.tree q (rw t at (more.0 q i))))
        refl

  delete_path-Deleted :
      (found : Option CleanPath)
      → resolve_session_path places session_id ≡ found
      → Deleted places csrf_token header session_id s (delete_path found s)
  unfolding delete_path
  delete_path-Deleted none e = declined 400 (λ h. ground (arith, h))
  delete_path-Deleted (some p) e =
      on_if (Deleted places csrf_token header session_id s) (any_path (is_below p) s.tree) _ _
        (λ _. after_removal-Deleted s.removal p _ e refl)
        (λ _. declined 404 (λ h. ground (arith, h)))

-- `handleDeleteSession` removes something only for a request with the server's token, that names an accepted
-- path: then no path is gone but that one, those below it, and its parent where nothing is left below that. With the status 200 nothing at the
-- path or below is left and the cache of sessions is dropped; with 400, 403 and 404 nothing is changed.
pub handle_delete_session-Deleted :
    (places : Places) (csrf_token header url_path : List ℕ) (s : Site)
    → Deleted places csrf_token header
        (trim_prefix url_path sessions_prefix)
        s
        (handle_delete_session places csrf_token header url_path s)
unfolding handle_delete_session
handle_delete_session-Deleted places csrf_token header url_path s =
    on_if (Deleted places csrf_token header (trim_prefix url_path sessions_prefix) s)
      (bytes_eq header csrf_token) _ _
      (λ e.
        delete_path-Deleted places csrf_token header (trim_prefix url_path sessions_prefix) s
          (bytes_eq_sound header csrf_token e) _ refl)
      (λ e. declined 403 (λ h. ground (arith, h)))
