-- ===== src/Users/Serializers/Email.antt =====
-- The expression ^[^@\s]+@[^@\s]+\.[^@\s]+$ for emails.
use adequate_api_cpp.Base.{
  ℕ, ◌≡◌, ◌≢◌, refl, sym, ap, ◌∙◌, ◌⊎◌, inl, inr, ◌↔◌, Bool, true, false, ◌&&◌, ◌==◌, [], ◌∷◌, ◌++◌,
  some, Str, all, is_empty, Bool-cases, Option-cases, arith, ==_iff, some_inj,
}
use adequate_api_cpp.Base.Decimal.{is_space}
use adequate_api_cpp.Users.Serializers.{
  is_plain, dotted_rest, dotted, domain_of, is_domain, is_email,
}

-- [^@\s]+: one character at least, none of them an @ or a space.
abbrev pub IsWord : Str → Type 0
IsWord s = (s ≢ []) × (all is_plain s ≡ true)

-- The shape of an email: a word, an @, a word, a dot and a word.
pub record Email (s : Str) : Type 0 where
  pub local : Str
  pub host : Str
  pub top : Str
  pub shape : s ≡ local ++ b'@' ∷ (host ++ b'.' ∷ top)
  pub local-IsWord : IsWord local
  pub host-IsWord : IsWord host
  pub top-IsWord : IsWord top

and_true : (a b : Bool) → a && b ≡ true → (a ≡ true) × (b ≡ true)
and_true true b h = (refl, h)
and_true false b h = cc h

and_assoc : (a b c : Bool) → a && (b && c) ≡ a && b && c
and_assoc true b c = refl
and_assoc false b c = refl

plain_dot : is_plain b'.' ≡ true
unfolding is_plain is_space
plain_dot = refl

nonempty : (s : Str) → is_empty s ≡ false → s ≢ []
nonempty [] h e = cc h
nonempty (c ∷ s) h e = cc e

is_empty-false : (s : Str) → s ≢ [] → is_empty s ≡ false
is_empty-false [] n = absurd (n refl)
is_empty-false (c ∷ s) n = refl

dotted_rest-cases :
    (c : ℕ) (s : Str)
    → dotted_rest (c ∷ s) ≡ true
    → ((c ≡ b'.') × (is_empty s ≡ false)) ⊎ (dotted_rest s ≡ true)
unfolding dotted_rest
dotted_rest-cases c s h = ground arith

dotted_rest-split : (s : Str) → dotted_rest s ≡ true → (a t : Str) × (s ≡ a ++ b'.' ∷ t) × (t ≢ [])
unfolding dotted_rest
dotted_rest-split [] h = cc h
dotted_rest-split (c ∷ s) h = elim (dotted_rest-cases c s h) [
  | inl (e, n) ↦ ([], s, ap (λ x. x ∷ s) e, nonempty s n)
  | inr r ↦ let (a, t, e, n) = dotted_rest-split s r in (c ∷ a, t, ap (λ x. c ∷ x) e, n)
]

dotted_rest-join : (a t : Str) → is_empty t ≡ false → dotted_rest (a ++ b'.' ∷ t) ≡ true
unfolding dotted_rest
dotted_rest-join [] t n = ground arith
dotted_rest-join (x ∷ a) t n = ground (arith, dotted_rest-join a t n)

domain_of-cases :
    (seen : Bool) (c : ℕ) (s d : Str)
    → domain_of seen (c ∷ s) ≡ some d
    → ((c ≡ b'@') × (seen ≡ true) × (s ≡ d)) ⊎ ((is_plain c ≡ true) × (domain_of true s ≡ some d))
unfolding domain_of
domain_of-cases seen c s d h = elim (Bool-cases (c == b'@')) [
  | inl e ↦ elim (Bool-cases seen) [
    | inl y ↦ inl ((==_iff c b'@').0 e, y, some_inj (rw (e, y) at h))
    | inr n ↦ cc (rw (e, n) at h)
  ]
  | inr e ↦ elim (Bool-cases (is_plain c)) [
    | inl y ↦ inr (y, rw (e, y) at h)
    | inr n ↦ cc (rw (e, n) at h)
  ]
]

domain_of-split :
    (seen : Bool) (s d : Str)
    → domain_of seen s ≡ some d
    → (local : Str) × (s ≡ local ++ b'@' ∷ d)
      × (all is_plain local ≡ true)
      × ((seen ≡ true) ⊎ (local ≢ []))
unfolding domain_of
domain_of-split seen [] d h = cc h
domain_of-split seen (c ∷ s) d h = elim (domain_of-cases seen c s d h) [
  | inl (e, y, r) ↦ ([], rw (e, r) refl, refl, inl y)
  | inr (y, r) ↦
      let (local, e, p, _) = domain_of-split true s d r in
      (c ∷ local, ap (λ x. c ∷ x) e, rw (y, p) refl, inr (λ n. cc n))
]

plain_not_at : (c : ℕ) → is_plain c ≡ true → (c == b'@') ≡ false
unfolding is_plain
plain_not_at c h = ground arith

domain_of-seen :
    (local d : Str) → all is_plain local ≡ true → domain_of true (local ++ b'@' ∷ d) ≡ some d
unfolding domain_of
domain_of-seen [] d h = refl
domain_of-seen (c ∷ local) d h =
    let (y, r) = and_true (is_plain c) (all is_plain local) h in
    rw (plain_not_at c y, y) (domain_of-seen local d r)

domain_of-join : (local d : Str) → IsWord local → domain_of false (local ++ b'@' ∷ d) ≡ some d
unfolding domain_of
domain_of-join [] d w = absurd (w.0 refl)
domain_of-join (c ∷ local) d w =
    let (y, r) = and_true (is_plain c) (all is_plain local) w.1 in
    rw (plain_not_at c y, y) (domain_of-seen local d r)

all-append : (a b : Str) → all is_plain (a ++ b) ≡ all is_plain a && all is_plain b
all-append [] b = refl
all-append (c ∷ a) b =
    rw (all-append a b) (and_assoc (is_plain c) (all is_plain a) (all is_plain b))

domain-split :
    (d : Str)
    → all is_plain d && dotted d ≡ true
    → (host top : Str) × (d ≡ host ++ b'.' ∷ top) × IsWord host × IsWord top
domain-split [] h = cc h
domain-split (c ∷ d) h =
    let (p, q) = and_true (all is_plain (c ∷ d)) (dotted_rest d) h in
    let (a, t, e, n) = dotted_rest-split d q in
    let (ph, pt) =
      and_true (all is_plain (c ∷ a)) (all is_plain (b'.' ∷ t))
        (sym (all-append (c ∷ a) (b'.' ∷ t)) ∙ (ap (λ x. all is_plain (c ∷ x)) (sym e) ∙ p)) in
    (
      c ∷ a,
      t,
      ap (λ x. c ∷ x) e,
      ((λ x. cc x), ph),
      (n, (and_true (is_plain b'.') (all is_plain t) pt).1),
    )

domain-join :
    (host top : Str) → IsWord host → IsWord top → is_domain (some (host ++ b'.' ∷ top)) ≡ true
domain-join [] top h t = absurd (h.0 refl)
domain-join (c ∷ a) top h t =
    rw
      (
        all-append (c ∷ a) (b'.' ∷ top),
        h.1,
        t.1,
        dotted_rest-join a top (is_empty-false top t.0),
        plain_dot,
      )
      refl

Email-sound : (s : Str) → is_email s ≡ true → Email s
unfolding is_email
Email-sound s h = elim (Option-cases (domain_of false s)) [
  | inl n ↦ cc (rw n at h)
  | inr (d, f) ↦
      let (host, top, e, wh, wt) = domain-split d (rw f at h) in
      let (local, e', pl, seen) = domain_of-split false s d f in
      record {
        local = local;
        host = host;
        top = top;
        shape = e' ∙ ap (λ x. local ++ b'@' ∷ x) e;
        local-IsWord = (elim seen [ inl y ↦ cc y | inr n ↦ n ], pl);
        host-IsWord = wh;
        top-IsWord = wt;
      }
]

Email-complete : (s : Str) → Email s → is_email s ≡ true
unfolding is_email
Email-complete s m =
    rw (m.shape, domain_of-join m.local (m.host ++ b'.' ∷ m.top) m.local-IsWord)
      (domain-join m.host m.top m.host-IsWord m.top-IsWord)

-- The expression matches exactly the texts of the form local@host.top, where the three parts are not
-- empty and hold no @ and no white space.
pub is_email_iff : (s : Str) → (is_email s ≡ true) ↔ Email s
is_email_iff s = (Email-sound s, Email-complete s)
