-- ===== src/Entity/Body.antt =====
-- domain/src/entity/body.rs: the body of an email on its way from submission to delivery.
use catapulte.Common.{String, Option, none, some, Result, ok, err}

pub record Plain : Type 0 where
  pub text : Option String
  pub html : Option String

pub data InvalidPlainBody : Type 0 where
  empty : InvalidPlainBody

-- `Plain::try_new`, the only constructor of `Plain` outside its module.
unfoldable pub try_new : Option String → Option String → Result Plain InvalidPlainBody
try_new none none = err empty
try_new (some t) html = ok (record { text = some t; html = html })
try_new none (some h) = ok (record { text = none; html = some h })

unfoldable pub into_parts : Plain → Option String × Option String
into_parts p = (p.text, p.html)

pub data MjmlSource : Type 0 where
  inline : String → MjmlSource
  named : String → MjmlSource
  remote : String → MjmlSource

pub data BodySource : Type 0 where
  plain : Plain → BodySource
  mjml : MjmlSource → BodySource

pub data ResolvedBody : Type 0 where
  plain : Plain → ResolvedBody
  mjml : String → ResolvedBody

pub data InterpolatedBody : Type 0 where
  plain : Plain → InterpolatedBody
  mjml : String → InterpolatedBody

pub record RenderedBody : Type 0 where
  pub into_plain : Plain
