-- ===== src/Clipboard/Actions.antt =====
-- The two handlers of main/clipboard.c that change the store, from the request to the operation.
use satura_bridge.Prelude.{
  Bool, List, Option, [], ◌∷◌, ℕ, codes, strcmp_eq, if◌then◌else◌, some, none, ◌≡◌, true, false,
  refl, ◌<◌, decimal, min, ◌-◌, ◌%◌, ◌==◌, leb, ◌&&◌, ◌||◌, ap, ◌∙◌, arith,
}
use satura_bridge.Clipboard.{
  Clip, clip_add, clip_pin, clip_unpin, clip_delete, serve, pin, unpin, delete, Request, add,
}
use satura_bridge.Routes.{
  HttpLib, PortalRequest, Response, failed, no_memory, found, decoded, digits_value, is_digits_only,
}
use satura_bridge.Routes.Numbers.{is_digits_only-decimal, digits_value-decimal}

-- `strtoul` of the C library in base ten, on a 32-bit machine.
unfoldable pub strtoul : List ℕ → ℕ
strtoul [] = 0
strtoul (c ∷ s) =
    let rest = strtoul s in
    if c == b' ' || leb 9 c && leb c 13
    then rest
    else (if c == b'-'
        then (4294967296 - min (digits_value 0 s) 4294967295) % 4294967296
        else (if c == b'+'
            then min (digits_value 0 s) 4294967295
            else min (digits_value 0 (c ∷ s)) 4294967295))

unfoldable pub clip_action : List ℕ → ℕ → Clip → Clip
clip_action op id c =
    if strcmp_eq op (codes "pin")
    then clip_pin c id
    else (if strcmp_eq op (codes "unpin")
        then clip_unpin c id
        else (if strcmp_eq op (codes "delete") then clip_delete c id else c))

module _ (lib : HttpLib) where
  -- `allocated` is whether `malloc` brought the buffer for the body.
  unfoldable pub handler_clip_add_post : Bool → PortalRequest → Clip → Clip × Response
  handler_clip_add_post false req c = (c, no_memory)
  handler_clip_add_post true req c = elim (req.received 899) [
    | none ↦ (c, failed)
    | some buf ↦
        let raw = lib.query_value buf (codes "text") 900 in
        (if raw.0 then clip_add c (decoded raw.1 256) else c, found (codes "/clip"))
  ]

  -- What is left in the two buffers, whatever the reading returned.
  abbrev pub action_value : Option (List ℕ) → List ℕ → List ℕ
  action_value none key = []
  action_value (some query) key = (lib.query_value query key 16).1

  unfoldable pub handler_clip_action_get : PortalRequest → Clip → Clip × Response
  handler_clip_action_get req c =
      let query = req.query 64 in
      (
        clip_action (action_value query (codes "op")) (strtoul (action_value query (codes "id"))) c,
        found (codes "/clip"),
      )

strtoul-digits :
    (s : List ℕ) → is_digits_only s ≡ true → strtoul s ≡ min (digits_value 0 s) 4294967295
unfolding strtoul is_digits_only digits_value
strtoul-digits [] h = refl
strtoul-digits (c ∷ s) h = ground arith

strtoul-decimal : (n : ℕ) → n < 4294967296 → strtoul (decimal n) ≡ n
strtoul-decimal n h =
    strtoul-digits (decimal n) (is_digits_only-decimal n)
    ∙ ap (λ k. min k 4294967295) (digits_value-decimal n h)
    ∙ (omega (arith, h))

-- The operation and the number in the link of the page that stands for a request; a text is not added by a
-- link.
abbrev pub op_of : Request → List ℕ
op_of (add text) = []
op_of (pin id) = codes "pin"
op_of (unpin id) = codes "unpin"
op_of (delete id) = codes "delete"

abbrev pub id_of : Request → ℕ
id_of (add text) = 0
id_of (pin id) = id
id_of (unpin id) = id
id_of (delete id) = id

abbrev pub has_link : Request → Bool
has_link (add text) = false
has_link _ = true

clip_action-op_of :
    (r : Request) (c : Clip) → has_link r ≡ true → clip_action (op_of r) (id_of r) c ≡ serve c r
unfolding clip_action serve strcmp_eq
clip_action-op_of (add text) c h = absurd (ground arith)
clip_action-op_of (pin id) c h = refl
clip_action-op_of (unpin id) c h = refl
clip_action-op_of (delete id) c h = refl

-- Each of the three links of an entry, with the number of the entry as the page prints it, reaches the
-- operation that it names on that entry, for a number of 32 bits.
pub handler_clip_action_get-decimal :
    (lib : HttpLib) (req : PortalRequest) (query : List ℕ) (r : Request) (c : Clip)
    → has_link r ≡ true
    → id_of r < 4294967296
    → req.query 64 ≡ some query
    → (lib.query_value query (codes "op") 16).1 ≡ op_of r
    → (lib.query_value query (codes "id") 16).1 ≡ decimal (id_of r)
    → handler_clip_action_get lib req c ≡ (serve c r, found (codes "/clip"))
unfolding handler_clip_action_get
handler_clip_action_get-decimal lib req query r c link small asked op number =
    rw (asked, op, number, strtoul-decimal (id_of r) small, clip_action-op_of r c link) refl
