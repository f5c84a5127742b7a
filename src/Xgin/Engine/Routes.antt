-- ===== src/Xgin/Engine/Routes.antt =====
-- The routes of xgin/tree.go as a map from methods.
use srcrd.Prelude.{
  ◌≡◌, refl, ap, ap₂, ◌∙◌, inl, inr, true, false, Bool-cases, Option, none, some, Option-cases,
  List, [], ◌∷◌, ◌++◌, ◌==◌, ==_iff, if◌then◌else◌, arith,
}
use srcrd.Xgin.Engine.{Str, same, Node, MethodTree, get, set_root, add_route}

pub same_refl : (a : Str) → same a a ≡ true
same_refl [] = refl
same_refl (x ∷ a) = let h : (x == x) ≡ true = ground arith in rw h (same_refl a)

pub same_eq : (a b : Str) → same a b ≡ true → a ≡ b
same_eq [] [] h = refl
same_eq [] (y ∷ b) h = ground arith
same_eq (x ∷ a) [] h = ground arith
same_eq (x ∷ a) (y ∷ b) h = ground (arith, same_eq a b, ==_iff x y)

pub same_apart : (a b c : Str) → same a b ≡ false → same a c ≡ true → same b c ≡ false
same_apart a b c h e = elim (Bool-cases (same b c)) [
  | inl e' ↦
      let f : same a b ≡ true = ap₂ same (same_eq a c e) (same_eq b c e') ∙ same_refl c in
      ground (arith, f, h)
  | inr e' ↦ e'
]

module _ {H : Type 0} where
  -- What a request of a method finds: the first tree of the method that has handlers.
  unfoldable pub find : Str → List (MethodTree H) → Option (List H × Str)
  find method [] = none
  find method (tree ∷ trees) =
      let rest = find method trees in
      let root = tree.root in
      if same tree.method method
      then elim root.handlers [ none ↦ rest | some hs ↦ some (hs, root.full_path) ]
      else rest

  find-set_root :
      (method path : Str) (hs : List H) (trees : List (MethodTree H)) (root : Node H) (m : Str)
      → get method trees ≡ some root
      → find m (set_root method path hs trees)
        ≡ (if same method m then some (hs, path) else find m trees)
  unfolding find set_root get
  find-set_root method path hs [] root m h = ground arith
  find-set_root method path hs (tree ∷ trees) root m h =
      let ih = find-set_root method path hs trees root m in
      elim (Bool-cases (same tree.method method)) [
        | inl e ↦
            let t : same tree.method m ≡ same method m =
              ap (λ t. same t m) (same_eq tree.method method e) in
            ground (arith, t)
        | inr e ↦ let t = same_apart tree.method method m e in ground (arith, t, ih)
      ]

  find-append :
      (m : Str) (trees : List (MethodTree H)) (tree : MethodTree H)
      → same tree.method m ≡ false
      → find m (trees ++ (tree ∷ [])) ≡ find m trees
  unfolding find
  find-append m [] tree h = rw h refl
  find-append m (t ∷ trees) tree h =
      ap
        (λ r.
          if same t.method m
          then elim t.root.handlers [ none ↦ r | some hs ↦ some (hs, t.root.full_path) ]
          else r)
        (find-append m trees tree h)

  get-append :
      (m : Str) (trees : List (MethodTree H)) (tree : MethodTree H)
      → same tree.method m ≡ true
      → get m trees ≡ none
      → get m (trees ++ (tree ∷ [])) ≡ some tree.root
  unfolding get
  get-append m [] tree h e = rw h refl
  get-append m (t ∷ trees) tree h e = ground (arith, get-append m trees tree h)

  fresh : Str → MethodTree H
  fresh method = record { method = method; root = record { handlers = none; full_path = 47 ∷ [] } }

  add_route-none :
      (method path : Str) (hs : List H) (trees : List (MethodTree H))
      → get method trees ≡ none
      → add_route method path hs trees ≡ set_root method path hs (trees ++ (fresh method ∷ []))
  unfolding add_route fresh
  add_route-none method path hs trees e = rw (e, add_route) refl

  add_route-some :
      (method path : Str) (hs : List H) (trees : List (MethodTree H)) (root : Node H)
      → get method trees ≡ some root
      → add_route method path hs trees ≡ set_root method path hs trees
  unfolding add_route
  add_route-some method path hs trees root e = rw (e, add_route) refl

  pub find-add_route :
      (method path : Str) (hs : List H) (trees : List (MethodTree H)) (m : Str)
      → find m (add_route method path hs trees)
        ≡ (if same method m then some (hs, path) else find m trees)
  unfolding fresh
  find-add_route method path hs trees m = elim (Option-cases (get method trees)) [
    | inl e ↦
        let more = trees ++ (fresh method ∷ []) in
        let g = get-append method trees (fresh method) (same_refl method) e in
        let old = find-append m trees (fresh method) in
        ap (find m) (add_route-none method path hs trees e)
        ∙ find-set_root method path hs more (fresh method).root m g
        ∙ elim (Bool-cases (same method m)) [ inl t ↦ rw t refl | inr f ↦ rw f (old f) ]
    | inr (root, e) ↦
        ap (find m) (add_route-some method path hs trees root e)
        ∙ find-set_root method path hs trees root m e
  ]
