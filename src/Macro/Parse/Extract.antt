-- ===== src/Macro/Parse/Extract.antt =====
-- What the parser takes out of the body of a function, and what it leaves there.
use rtfm.Common.{
  ◌≡◌, refl, sym, ap, ap₂, ◌∙◌, Bool, true, false, List, [], ◌∷◌, ◌++◌, map, reverse,
  reverse-append, reverse-reverse, reverse-cons, All, All-append, if◌then◌else◌,
}
use rtfm.Macro.Syn.{Stmt, item_static, semi, other_stmt, assign, path, ItemStatic}
use rtfm.Macro.Syntax.{Statics, Assign}
use rtfm.Macro.Parse.Body.{extract_statics, assignments_loop, extract_assignments}

abbrev is_static_mut : Stmt → Bool
is_static_mut (item_static var) = var.mutability
is_static_mut stmt = false

-- The statements do not begin with one of the kind.
abbrev pub StartsOther : (Stmt → Bool) → List Stmt → Type 0
StartsOther kind [] = Unit
StartsOther kind (stmt ∷ stmts) = kind stmt ≡ false

-- What a split of the body has to satisfy.
abbrev pub Splits : List Stmt → Statics × List Stmt → Type 0
Splits stmts r =
    (map item_static r.0 ++ r.1 ≡ stmts)
    × All (λ var. var.mutability ≡ true) r.0
    × StartsOther is_static_mut r.1

static_Splits :
    (var : ItemStatic) (stmts : List Stmt) (r : Statics × List Stmt) (b : Bool)
    → var.mutability ≡ b
    → Splits stmts r
    → Splits
        (item_static var ∷ stmts)
        (if b then (var ∷ r.0, r.1) else ([], item_static var ∷ stmts))
static_Splits var stmts r true e s = (ap (◌∷◌ (item_static var)) s.0, (e, s.1), s.2)
static_Splits var stmts r false e s = (refl, tt, e)

-- The statics and the statements that are left make up the body, in order; all of the statics are
-- mutable, and none that is mutable follows them directly.
pub extract_statics-Splits : (stmts : List Stmt) → Splits stmts (extract_statics stmts)
unfolding extract_statics
extract_statics-Splits [] = (refl, tt, tt)
extract_statics-Splits (item_static var ∷ stmts) =
    static_Splits var stmts (extract_statics stmts) var.mutability refl
      (extract_statics-Splits stmts)
extract_statics-Splits (semi expr ∷ stmts) = (refl, tt, refl)
extract_statics-Splits (other_stmt text ∷ stmts) = (refl, tt, refl)

-- `left = right;`, with any left side.
abbrev pub is_assignment : Stmt → Bool
is_assignment (semi (assign left right)) = true
is_assignment stmt = false

-- The assignments to plain names, in order, and the other statements.
abbrev pub plain_assigns : List Stmt → List Assign
plain_assigns [] = []
plain_assigns (semi (assign (path (ident ∷ [])) right) ∷ stmts) =
    record { left = ident; right = right } ∷ plain_assigns stmts
plain_assigns (stmt ∷ stmts) = plain_assigns stmts

abbrev pub others : List Stmt → List Stmt
others [] = []
others (semi (assign (path (ident ∷ [])) right) ∷ stmts) = others stmts
others (stmt ∷ stmts) = stmt ∷ others stmts

plain_assigns-append :
    (xs ys : List Stmt) → plain_assigns (xs ++ ys) ≡ plain_assigns xs ++ plain_assigns ys
plain_assigns-append [] ys = refl
plain_assigns-append (semi (assign (path (ident ∷ [])) right) ∷ xs) ys =
    ap (◌∷◌ (record { left = ident; right = right })) (plain_assigns-append xs ys)
plain_assigns-append (x ∷ xs) ys = plain_assigns-append xs ys

others-append : (xs ys : List Stmt) → others (xs ++ ys) ≡ others xs ++ others ys
others-append [] ys = refl
others-append (semi (assign (path (ident ∷ [])) right) ∷ xs) ys = others-append xs ys
others-append (x ∷ xs) ys = ap (◌∷◌ x) (others-append xs ys)

loop_stops :
    (rest : List Stmt) → StartsOther is_assignment rest → assignments_loop rest ≡ (rest, [])
unfolding assignments_loop
loop_stops [] s = refl
loop_stops (semi (assign left right) ∷ rest) s = cc
loop_stops (x ∷ rest) s = refl

-- The loop on assignments that end where other statements start.
loop_lem :
    (tail rest : List Stmt)
    → All (λ s. is_assignment s ≡ true) tail
    → StartsOther is_assignment rest
    → assignments_loop (tail ++ rest) ≡ (others tail ++ rest, plain_assigns tail)
unfolding assignments_loop
loop_lem [] rest a s = loop_stops rest s
loop_lem (semi (assign (path (ident ∷ [])) right) ∷ tail) rest a s =
    ap (λ r. (r.0, record { left = ident; right = right } ∷ r.1)) (loop_lem tail rest a.1 s)
loop_lem (semi (assign left right) ∷ tail) rest a s =
    ap (λ r. (semi (assign left right) ∷ r.0, r.1)) (loop_lem tail rest a.1 s)
loop_lem (x ∷ tail) rest a s = cc

-- A function on lists that takes each entry to one entry at most commutes with `reverse`.
module _ {A : Type 0} (f : List Stmt → List A)
    (f-append : (xs ys : List Stmt) → f (xs ++ ys) ≡ f xs ++ f ys) (f-nil : f [] ≡ [])
    (f-one : (x : Stmt) → reverse (f (x ∷ [])) ≡ f (x ∷ [])) where
  commutes-reverse : (xs : List Stmt) → f (reverse xs) ≡ reverse (f xs)
  commutes-reverse [] = f-nil ∙ sym (ap reverse f-nil)
  commutes-reverse (x ∷ xs) =
      ap f (reverse-cons x xs)
      ∙ f-append (reverse xs) (x ∷ [])
      ∙ ap₂ (λ a b. a ++ b) (commutes-reverse xs) (sym (f-one x))
      ∙ sym (reverse-append (f (x ∷ [])) (f xs))
      ∙ sym (ap reverse (f-append (x ∷ []) xs))

others-one : (x : Stmt) → reverse (others (x ∷ [])) ≡ others (x ∷ [])
others-one (semi (assign (path (ident ∷ [])) right)) = refl
others-one x = refl

plain_assigns-one : (x : Stmt) → reverse (plain_assigns (x ∷ [])) ≡ plain_assigns (x ∷ [])
plain_assigns-one (semi (assign (path (ident ∷ [])) right)) = refl
plain_assigns-one x = refl

others-reverse : (xs : List Stmt) → others (reverse xs) ≡ reverse (others xs)
others-reverse = commutes-reverse others others-append refl others-one

plain_assigns-reverse : (xs : List Stmt) → plain_assigns (reverse xs) ≡ reverse (plain_assigns xs)
plain_assigns-reverse = commutes-reverse plain_assigns plain_assigns-append refl plain_assigns-one

All-reverse : {A : Type 0} (P : A → Type 0) (xs : List A) → All P xs → All P (reverse xs)
All-reverse P [] a = tt
All-reverse P (x ∷ xs) a =
    rw (reverse-cons x xs) (All-append P (reverse xs) (x ∷ []) (All-reverse P xs a.1) (a.0, tt))

-- The assignments at the end of a body, however many: those to plain names are taken out, in
-- reverse order, and all other statements stay as they are.
pub extract_assignments-tail :
    (front tail : List Stmt)
    → StartsOther is_assignment (reverse front)
    → All (λ s. is_assignment s ≡ true) tail
    → extract_assignments (front ++ tail) ≡ (front ++ others tail, reverse (plain_assigns tail))
unfolding extract_assignments
extract_assignments-tail front tail s a =
    rw
      (
        reverse-append front tail,
        loop_lem (reverse tail) (reverse front) (All-reverse (λ s. is_assignment s ≡ true) tail a)
            s,
        reverse-append (others (reverse tail)) (reverse front),
        reverse-reverse front,
        others-reverse tail,
        reverse-reverse (others tail),
        plain_assigns-reverse tail,
      )
      refl
