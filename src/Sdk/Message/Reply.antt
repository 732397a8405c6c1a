-- ===== src/Sdk/Message/Reply.antt =====
-- What the three reply builders make of a request.
use ac.Common.{◌≡◌, ◌≢◌, refl, String, [], ◌∷◌, Option, none, some, arith, Option-cases, inl, inr}
use text.Mathlib.TextEquality.{eq_iff}
use ac.Sdk.Message.{
  Message, Envelope, ReplyArgs, build_reply, infer_reply_from, build_reply_envelope,
  create_base_message, Body, first,
}

pub build_reply-create :
    (args : ReplyArgs) (create : Envelope → Message) (reply : Message)
    → build_reply args create ≡ some reply
    → (from : String) × (infer_reply_from args.request args.from ≡ some from)
      × (create (build_reply_envelope args from) ≡ reply)
unfolding build_reply
build_reply-create args create reply e =
    elim (Option-cases (infer_reply_from args.request args.from)) [
      | inl missing ↦ absurd (let k = rw (missing, build_reply) at e in cc)
      | inr (from, found) ↦ (from, found, let k = rw (found, build_reply) at e in cc)
    ]

-- The sender of a reply: the given one, or else the first recipient of the request.
abbrev pub sender : ReplyArgs → Option String
sender args = elim args.from [ none ↦ first args.request.to | some from ↦ some from ]

infer-sender :
    (args : ReplyArgs) (from : String)
    → infer_reply_from args.request args.from ≡ some from
    → (sender args ≡ some from) × (from ≢ "")
unfolding infer_reply_from
infer-sender args from e = (ground arith, λ empty. ground (arith, eq_iff from "", empty))

-- A reply that is built, of any type and body, answers in the request's thread, goes to the
-- request's sender alone, and comes from the given sender or else from the first recipient of the
-- request, which is not empty.
pub build_reply_lem :
    (args : ReplyArgs) (kind : String) (body : Body) (reply : Message)
    → build_reply args (λ e. create_base_message kind e body) ≡ some reply
    → (reply.thid ≡ some args.request.id)
      × (reply.to ≡ args.request.from ∷ [])
      × (sender args ≡ some reply.from)
      × (reply.from ≢ "")
      × (reply.kind ≡ kind)
      × (reply.body ≡ body)
unfolding build_reply_envelope create_base_message
build_reply_lem args kind body reply e =
    let (from, found, built) =
      build_reply-create args (λ e. create_base_message kind e body) reply e in
    let (sent_by, named) = infer-sender args from found in
    rw (← built) (refl, refl, sent_by, named, refl, refl)
