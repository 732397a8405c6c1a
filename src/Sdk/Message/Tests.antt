-- ===== src/Sdk/Message/Tests.antt =====
-- The theorem on replies at a request whose recipient replies.
use ac.Common.{◌≡◌, refl, none, some, [], ◌∷◌}
use ac.Sdk.Message.{
  Message, Body, ReplyArgs, extension, str, create_base_message, build_reply, build_reply_envelope,
  infer_reply_from,
}

abbrev asking : Message
asking =
    create_base_message "app/Ask"
      (record {
        id = "q1";
        from = "did:key:agent";
        to = "did:key:wallet" ∷ [];
        created_time = 1;
        expires_time = none;
        thid = none;
        pthid = none;
        attachments = none;
      })
      (extension (str "?"))

abbrev answering : ReplyArgs
answering = record {
  request = asking;
  from = none;
  id = none;
  created_time = none;
  expires_time = some 9;
  fresh_id = "q2";
  now = 2;
}

abbrev answer : Body
answer = extension (str "!")

abbrev answered : Message
answered = create_base_message "app/Answer" (build_reply_envelope answering "did:key:wallet") answer

answered-built :
    build_reply answering (λ e. create_base_message "app/Answer" e answer) ≡ some answered
unfolding build_reply infer_reply_from create_base_message
answered-built = refl
