-- ===== src/Security/Example.antt =====
-- A concrete instance of the third-party code of app/security.py, for the examples: a token is
-- its claims written out, a password hash is the password, and none has a NUL, and a uuid is written as its number.
use stock_quant_backend.Prelude.{
  ℕ, zero, suc, ◌*◌, ◌≤◌, ◌<◌, ◌≡◌, refl, ap, ◌∙◌, true, ◌&&◌, not, any, ◌==◌, Option, none, some,
  [], ◌∷◌, leb, ltb, if◌then◌else◌, arith,
}
use stock_quant_backend.Prelude.Text.{Text, text_eq, text_eq_self}
use stock_quant_backend.RateLimit.{second}
use stock_quant_backend.Security.{Claims, Crypto, Settings}

-- A text before what follows it, and back.
abbrev put : Text → Text → Text
put [] rest = 0 ∷ rest
put (c ∷ s) rest = 1 ∷ c ∷ put s rest

abbrev cons_first : ℕ → Option (Text × Text) → Option (Text × Text)
cons_first c none = none
cons_first c (some (s, rest)) = some (c ∷ s, rest)

abbrev get : Text → Option (Text × Text)
get [] = none
get (zero ∷ rest) = some ([], rest)
get (suc n ∷ []) = none
get (suc n ∷ c ∷ t) = cons_first c (get t)

get-put : (s rest : Text) → get (put s rest) ≡ some (s, rest)
get-put [] rest = refl
get-put (c ∷ s) rest = ap (cons_first c) (get-put s rest)

abbrev put_number : Option ℕ → Text → Text
put_number none rest = 0 ∷ rest
put_number (some n) rest = 1 ∷ n ∷ rest

abbrev put_text : Option Text → Text → Text
put_text none rest = 0 ∷ rest
put_text (some s) rest = 1 ∷ put s rest

abbrev encode : Claims → Text
encode c = c.iat ∷ c.exp ∷ put_number c.ver (put_text c.sub c.jti)

abbrev claims : ℕ → ℕ → Option ℕ → Option Text → Text → Claims
claims iat exp ver sub jti = record { sub = sub; ver = ver; iat = iat; jti = jti; exp = exp }

abbrev get_text : ℕ → ℕ → Option ℕ → Text → Option Claims
get_text iat exp ver [] = none
get_text iat exp ver (zero ∷ jti) = some (claims iat exp ver none jti)
get_text iat exp ver (suc n ∷ t) = elim (get t) [
  | none ↦ none
  | some (sub, jti) ↦ some (claims iat exp ver (some sub) jti)
]

abbrev get_number : ℕ → ℕ → Text → Option Claims
get_number iat exp [] = none
get_number iat exp (zero ∷ t) = get_text iat exp none t
get_number iat exp (suc n ∷ []) = none
get_number iat exp (suc n ∷ v ∷ t) = get_text iat exp (some v) t

abbrev parse : Text → Option Claims
parse [] = none
parse (iat ∷ []) = none
parse (iat ∷ exp ∷ t) = get_number iat exp t

text_back :
    (iat exp : ℕ) (ver : Option ℕ) (sub : Option Text) (jti : Text)
    → get_text iat exp ver (put_text sub jti) ≡ some (claims iat exp ver sub jti)
text_back iat exp ver none jti = refl
text_back iat exp ver (some s) jti = rw (get_text, get-put s jti) refl

number_back :
    (iat exp : ℕ) (ver : Option ℕ) (sub : Option Text) (jti : Text)
    → get_number iat exp (put_number ver (put_text sub jti)) ≡ some (claims iat exp ver sub jti)
number_back iat exp none sub jti = text_back iat exp none sub jti
number_back iat exp (some v) sub jti = text_back iat exp (some v) sub jti

parse-encode : (c : Claims) → parse (encode c) ≡ some c
parse-encode c = number_back c.iat c.exp c.ver c.sub c.jti

abbrev in_date : ℕ → Claims → Option Claims
in_date now c = if leb (c.iat * second) now && ltb now (c.exp * second) then some c else none

abbrev decode : ℕ → Text → Option Claims
decode now t = elim (parse t) [ none ↦ none | some c ↦ in_date now c ]

in_date_lem :
    (now : ℕ) (c : Claims) → c.iat * second ≤ now → now < c.exp * second → in_date now c ≡ some c
in_date_lem now c h k = ground arith

pub decode_lem :
    (now : ℕ) (c : Claims)
    → c.iat * second ≤ now
    → now < c.exp * second
    → decode now (encode c) ≡ some c
decode_lem now c h k =
    ap (λ o. elim o [ none ↦ none | some d ↦ in_date now d ]) (parse-encode c)
    ∙ in_date_lem now c h k

pub same_claims :
    (now now' : ℕ) (o : Option Claims) (c c' : Claims)
    → elim o [ none ↦ none | some d ↦ in_date now d ] ≡ some c
    → elim o [ none ↦ none | some d ↦ in_date now' d ] ≡ some c'
    → c ≡ c'
same_claims now now' none c c' h h' = absurd cc
same_claims now now' (some d) c c' h h' = ground arith

abbrev number_of : Text → Option ℕ
number_of [] = none
number_of (n ∷ s) = some n

pub not_empty : (c : Claims) → encode c ≡ [] → ⊥
not_empty c h = cc

abbrev pub example : Crypto
example = record {
  takes_password = λ p. not (any (λ c. c == 0) p);
  hash_password = λ salt p. p;
  verify_password = text_eq;
  hash_email_token = λ t. t;
  jwt_encode = encode;
  jwt_decode = decode;
  uuid_str = λ n. n ∷ [];
  uuid_parse = number_of;
  verify-hash = λ salt p h. text_eq_self p;
  decode-encode = decode_lem;
  encode_nonempty = not_empty;
  decode_stable = λ now now' t c c' h h'. same_claims now now' (parse t) c c' h h';
  parse-str = λ k. refl;
  parse_empty = refl;
}

abbrev pub settings : Settings
settings = record {
  jwt_expire_minutes = 60;
  email_verify_ttl_minutes = 30;
  password_reset_ttl_minutes = 20;
  rate_limit_enabled = true;
}
