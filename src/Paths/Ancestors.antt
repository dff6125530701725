-- ===== src/Paths/Ancestors.antt =====
-- The loop over the directories above an absolute path: it ends, and it visits each of them.
use mathlib.Core.List.{reverse_aux, reverse-reverse}
use egress_router.Common.{
  ℕ, ◌<◌, true, false, List, [], ◌∷◌, ◌++◌, reverse, ◌≡◌, ◌≢◌, refl, ap, ◌∙◌, arith, Text, lit,
  nat_eq, text_eq, text_beq, text_beq_iff, split, join, length, length-append, All,
}
use egress_router.Common.Splits.{split-one, split-line}
use egress_router.Paths.{slash, push_component, reduce, clean, up_to_slash, dir}

-- A component of a cleaned absolute path.
pub record IsProper (c : Text) : Type 0 where
  pub no_slash : All (λ b. b ≢ slash) c
  pub ne_nil : c ≢ []
  pub ne_dot : c ≢ lit "."
  pub ne_up : c ≢ lit ".."

-- The absolute path of its components.
abbrev pub rooted : List Text → Text
rooted cs = slash ∷ join (lit "/") cs

-- The same in front of a last component, and with a slash behind it.
abbrev leading : List Text → Text → Text
leading [] c = c
leading (d ∷ cs) c = d ++ (slash ∷ leading cs c)

abbrev trailing : List Text → Text
trailing [] = []
trailing (d ∷ cs) = d ++ (slash ∷ trailing cs)

join-cons :
    (l k : Text) (ls : List Text)
    → join (lit "/") (l ∷ k ∷ ls) ≡ l ++ (slash ∷ join (lit "/") (k ∷ ls))
unfolding join lit
join-cons l k ls = refl

join-one : (l : Text) → join (lit "/") (l ∷ []) ≡ l
unfolding join
join-one l = refl

join-snoc : (cs : List Text) (c : Text) → join (lit "/") (cs ++ (c ∷ [])) ≡ leading cs c
join-snoc [] c = join-one c
join-snoc (d ∷ []) c = join-cons d c [] ∙ ap (λ t. d ++ (slash ∷ t)) (join-one c)
join-snoc (d ∷ e ∷ cs) c =
    join-cons d e (cs ++ (c ∷ [])) ∙ ap (λ t. d ++ (slash ∷ t)) (join-snoc (e ∷ cs) c)

up_to_slash-slash : (s : Text) → up_to_slash (slash ∷ s) ≡ slash ∷ up_to_slash s
unfolding up_to_slash
up_to_slash-slash s = ground (arith, text_beq_iff (up_to_slash s) [])

append-ne : (d : Text) (b : ℕ) (s : Text) → text_beq (d ++ (b ∷ s)) [] ≡ false
unfolding text_beq
append-ne [] b s = refl
append-ne (x ∷ d) b s = refl

up_to_slash-append : (d s : Text) → up_to_slash (d ++ (slash ∷ s)) ≡ d ++ (slash ∷ up_to_slash s)
unfolding up_to_slash
up_to_slash-append [] s = up_to_slash-slash s
up_to_slash-append (x ∷ d) s = rw (up_to_slash-append d s, append-ne d slash (up_to_slash s)) refl

up_to_slash-none : (c : Text) → All (λ b. b ≢ slash) c → up_to_slash c ≡ []
unfolding up_to_slash text_beq
up_to_slash-none [] h = refl
up_to_slash-none (b ∷ c) (n, h) = ground (arith, up_to_slash-none c h)

up_to_slash-leading :
    (cs : List Text) (c : Text) → All (λ b. b ≢ slash) c → up_to_slash (leading cs c) ≡ trailing cs
up_to_slash-leading [] c h = up_to_slash-none c h
up_to_slash-leading (d ∷ cs) c h =
    up_to_slash-append d (leading cs c) ∙ ap (λ t. d ++ (slash ∷ t)) (up_to_slash-leading cs c h)

split-trailing : (cs : List Text) → All IsProper cs → split slash (trailing cs) ≡ cs ++ ([] ∷ [])
split-trailing [] h = split-one slash [] tt
split-trailing (c ∷ cs) (p, h) =
    split-line slash c (trailing cs) p.no_slash ∙ ap (λ l. c ∷ l) (split-trailing cs h)

push_component-nil : (stack : List Text) → push_component true [] stack ≡ stack
unfolding text_beq
push_component-nil stack = refl

push_component-proper :
    (c : Text) (stack : List Text) → IsProper c → push_component true c stack ≡ c ∷ stack
push_component-proper c stack p = ground (
  arith,
  p.ne_nil,
  p.ne_dot,
  p.ne_up,
  text_beq_iff c [],
  text_beq_iff c (lit "."),
  text_beq_iff c (lit ".."),
)

reduce-proper :
    (cs stack : List Text)
    → All IsProper cs
    → reduce true stack (cs ++ ([] ∷ [])) ≡ reverse_aux cs stack
unfolding reduce
reduce-proper [] stack h = push_component-nil stack
reduce-proper (c ∷ cs) stack (p, h) =
    ap (λ l. reduce true l (cs ++ ([] ∷ []))) (push_component-proper c stack p)
    ∙ reduce-proper cs (c ∷ stack) h

clean-trailing : (cs : List Text) → All IsProper cs → clean (slash ∷ trailing cs) ≡ rooted cs
unfolding clean reduce
clean-trailing cs h =
    ap (λ l. rooted (reverse (reduce true [] l))) (split-line slash [] (trailing cs) tt)
    ∙ ap (λ l. rooted (reverse l))
        (ap (λ l. reduce true l (split slash (trailing cs))) (push_component-nil []))
    ∙ ap (λ l. rooted (reverse (reduce true [] l))) (split-trailing cs h)
    ∙ ap (λ l. rooted (reverse l)) (reduce-proper cs [] h)
    ∙ ap rooted (reverse-reverse cs)

-- The directory of an absolute path is the path without its last component.
pub dir-rooted :
    (cs : List Text) (c : Text)
    → All IsProper cs
    → IsProper c
    → dir (rooted (cs ++ (c ∷ []))) ≡ rooted cs
unfolding dir
dir-rooted cs c h p =
    ap clean (
      ap (λ t. up_to_slash (slash ∷ t)) (join-snoc cs c)
      ∙ up_to_slash-slash (leading cs c)
      ∙ ap (λ t. slash ∷ t) (up_to_slash-leading cs c p.no_slash))
    ∙ clean-trailing cs h

pub dir-root : dir (rooted []) ≡ rooted []
unfolding dir clean reduce up_to_slash split join lit text_beq
dir-root = refl

pub join-lt :
    (cs : List Text) (c : Text)
    → c ≢ []
    → length (join (lit "/") cs) < length (join (lit "/") (cs ++ (c ∷ [])))
unfolding join
join-lt [] [] n = absurd (n refl)
join-lt [] (b ∷ c) n = omega arith
join-lt (d ∷ []) c n =
    omega (arith, ap length (join-cons d c []), length-append d (slash ∷ join (lit "/") (c ∷ [])))
join-lt (d ∷ e ∷ cs) c n = omega (
  arith,
  join-lt (e ∷ cs) c n,
  ap length (join-cons d e cs),
  ap length (join-cons d e (cs ++ (c ∷ []))),
  length-append d (slash ∷ join (lit "/") (e ∷ cs)),
  length-append d (slash ∷ join (lit "/") (e ∷ (cs ++ (c ∷ [])))),
)
