-- ===== src/RateLimit/Client.antt =====
-- `client_ip` (app/ratelimit.py): the address that the limiter counts by.
use stock_quant_backend.Prelude.{
  ◌≡◌, refl, ap, ◌∙◌, Bool, true, false, not, Option, none, some, List, [], ◌∷◌, ◌++◌, map, select,
}
use stock_quant_backend.Prelude.Text.{Text, codes, strip}
use stock_quant_backend.Prelude.Split.{split, split-append, split_whole, has_char}
use stock_quant_backend.Prelude.Rows.{select-append}

abbrev pub is_blank : Text → Bool
is_blank [] = true
is_blank (c ∷ s) = false

-- `parts[-1]`
unfoldable pub last : List Text → Option Text
last [] = none
last (p ∷ []) = some p
last (p ∷ q ∷ ps) = last (q ∷ ps)

-- `[p.strip() for p in xff.split(",") if p.strip()]`
unfoldable pub parts : Text → List Text
parts xff = select (λ p. not (is_blank p)) (map strip (split 44 xff))

-- `request.client.host if request.client else "unknown"`
abbrev pub host_or_unknown : Option Text → Text
host_or_unknown none = codes "unknown"
host_or_unknown (some host) = host

-- The `X-Forwarded-For` header, and the peer of the connection.
unfoldable pub client_ip : Option Text → Option Text → Text
client_ip none peer = host_or_unknown peer
client_ip (some []) peer = host_or_unknown peer
client_ip (some (c ∷ s)) peer = elim (last (parts (c ∷ s))) [
  | none ↦ host_or_unknown peer
  | some p ↦ p
]

last-snoc : (ps : List Text) (p : Text) → last (ps ++ p ∷ []) ≡ some p
unfolding last
last-snoc [] p = refl
last-snoc (q ∷ []) p = refl
last-snoc (q ∷ r ∷ ps) p = last-snoc (r ∷ ps) p

map-append : {A B : Type 0} (f : A → B) (xs ys : List A) → map f (xs ++ ys) ≡ map f xs ++ map f ys
map-append f [] ys = refl
map-append f (x ∷ xs) ys = ap (λ zs. f x ∷ zs) (map-append f xs ys)

parts-append :
    (sent addr : Text)
    → has_char 44 addr ≡ false
    → is_blank (strip addr) ≡ false
    → parts (sent ++ 44 ∷ addr) ≡ parts sent ++ strip addr ∷ []
unfolding parts
parts-append sent addr h b =
    let p : Text → Bool = λ q. not (is_blank q) in
    ap (λ xs. select p (map strip xs))
      (split-append 44 sent addr ∙ ap (λ xs. split 44 sent ++ xs) (split_whole 44 addr h))
    ∙ ap (select p) (map-append strip (split 44 sent) (addr ∷ []))
    ∙ select-append p (map strip (split 44 sent)) (strip addr ∷ [])
    ∙ ap (λ xs. select p (map strip (split 44 sent)) ++ xs) (keeps b)
  where
    keeps :
        is_blank (strip addr) ≡ false
        → select (λ q. not (is_blank q)) (strip addr ∷ []) ≡ strip addr ∷ []
    keeps b = rw b refl

-- Whatever a client sends in `X-Forwarded-For`, commas included: where the proxy appends a comma
-- and the address of its peer, which has no comma and is not blank, that address is the one
-- counted by. A forged header does not move a client to another bucket.
pub client_ip-appended :
    (sent addr : Text) (peer : Option Text)
    → has_char 44 addr ≡ false
    → is_blank (strip addr) ≡ false
    → client_ip (some (sent ++ 44 ∷ addr)) peer ≡ strip addr
unfolding client_ip
client_ip-appended [] addr peer h b =
    rw (client_ip, parts-append [] addr h b, last-snoc (parts []) (strip addr)) refl
client_ip-appended (c ∷ sent) addr peer h b =
    rw (client_ip, parts-append (c ∷ sent) addr h b, last-snoc (parts (c ∷ sent)) (strip addr)) refl
