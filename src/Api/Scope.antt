-- ===== src/Api/Scope.antt =====
-- Properties of the database that a handler keeps: one rule for each way to build a handler.
use casper_cloud.Prelude.{
  refl, ◌≡◌, Bool, true, false, Option, none, some, Text, is_empty, if◌then◌else◌,
}
use casper_cloud.Data.{Uuid, Error, Db}
use casper_cloud.Exec.{Result, ok, err, World, Exec}
use casper_cloud.Exec.Keeps.{Keeps}
use casper_cloud.Service.Accounts.{Auth}
use casper_cloud.Api.Responses.{Response, Message, Handler, respond, refuse, answered}
use casper_cloud.Api.Bodies.{Decoded, with_body, invalid_request}
use casper_cloud.Api.Server.{with_id, must_parse, optional_id}

pub record Holds (P : Db → Type 0) (h : Handler) : Type 0 where
  pub at : (w : World) → P w.db → P (h w).1.db

module _ {P : Db → Type 0} where
  pub Holds-refuse : (r : Response) → Holds P (refuse r)
  Holds-refuse r = record { at = λ w v. v }

  pub Holds-respond :
      {A : Type 0} (f : Error → Response) (g : A → Response) (m : Exec A)
      → Keeps P m
      → Holds P (respond f g m)
  unfolding respond
  Holds-respond {A} f g m k = record { at = λ w v. go (m w) (k.at w v) }
    where
      go : (r : Result A × World) → P r.1.db → P (answered f g r).1.db
      go (ok a, w) v = v
      go (err e, w) v = v

  pub Holds-with_id :
      (a : Auth) (s message : Text) (k : Uuid → Handler)
      → ((i : Uuid) → Holds P (k i))
      → Holds P (with_id a s message k)
  unfolding with_id
  Holds-with_id a s message k h = go (a.parse_uuid s)
    where
      go :
          (o : Option Uuid)
          → Holds P (elim o [
            | none ↦ refuse (Response.error_of 400 (Message.says message))
            | some i ↦ k i
          ])
      go none = Holds-refuse _
      go (some i) = h i

  pub Holds-must_parse :
      (a : Auth) (s : Text) (k : Uuid → Handler)
      → ((i : Uuid) → Holds P (k i))
      → Holds P (must_parse a s k)
  unfolding must_parse
  Holds-must_parse a s k h = go (a.parse_uuid s)
    where
      go : (o : Option Uuid) → Holds P (elim o [ none ↦ refuse Response.panicked | some i ↦ k i ])
      go none = Holds-refuse _
      go (some i) = h i

  pub Holds-if : (b : Bool) (h k : Handler) → Holds P h → Holds P k → Holds P (if b then h else k)
  Holds-if true h k x y = x
  Holds-if false h k x y = y

  pub Holds-optional_id :
      (a : Auth) (s message : Text) (k : Option Uuid → Handler)
      → ((o : Option Uuid) → Holds P (k o))
      → Holds P (optional_id a s message k)
  unfolding optional_id
  Holds-optional_id a s message k h =
      Holds-if (is_empty s) _ _ (h none)
        (Holds-with_id a s message (λ i. k (some i)) (λ i. h (some i)))

  pub Holds-with_body :
      {A : Type 0} (valid : A → Bool) (body : Decoded A) (k : A → Handler)
      → ((a : A) → valid a ≡ true → Holds P (k a))
      → Holds P (with_body valid body k)
  unfolding with_body
  Holds-with_body valid Decoded.empty_body k h = Holds-refuse _
  Holds-with_body valid Decoded.not_json k h = Holds-refuse _
  Holds-with_body valid Decoded.unknown_field k h = Holds-refuse _
  Holds-with_body {A} valid (Decoded.value a) k h = go (valid a) (h a)
    where
      go :
          (b : Bool)
          → (b ≡ true → Holds P (k a))
          → Holds P (elim b [ true ↦ k a | false ↦ refuse (invalid_request (Decoded.value a)) ])
      go true x = x refl
      go false x = Holds-refuse _

-- The same at one world, where the handler's tables are those of the start.
pub with_body-after :
    {A : Type 0} (P : Db → Type 0) (valid : A → Bool) (body : Decoded A) (k : A → Handler)
    (w : World)
    → P w.db
    → ((a : A) → P (k a w).1.db)
    → P (with_body valid body k w).1.db
unfolding with_body
with_body-after P valid Decoded.empty_body k w h f = h
with_body-after P valid Decoded.not_json k w h f = h
with_body-after P valid Decoded.unknown_field k w h f = h
with_body-after P valid (Decoded.value a) k w h f = go (valid a)
  where
    go :
        (b : Bool)
        → P
            (elim b as (λ _. Handler) [
              | true ↦ k a
              | false ↦ refuse (invalid_request (Decoded.value a))
            ]
              w).1.db
    go true = f a
    go false = h

pub ruleset holds_rules = (
  Holds-refuse, Holds-respond, Holds-with_id, Holds-must_parse, Holds-if, Holds-optional_id,
  Holds-with_body,
)
