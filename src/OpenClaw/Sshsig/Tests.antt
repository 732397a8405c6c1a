-- ===== src/OpenClaw/Sshsig/Tests.antt =====
-- The theorem on signatures at constant bytes.
use ac.Common.{◌>>=◌, ◌≡◌, refl, some, Text, codes, replicate, arith}
use ac.OpenClaw.Sshsig.{hash_algorithm, assemble_ssh_sig, decode_ssh_sig, decode-assemble_ssh_sig}

abbrev zero_key : Text
zero_key = replicate 32 0

abbrev one_signature : Text
one_signature = replicate 64 1

decode-assemble_ssh_sig_example :
    (assemble_ssh_sig zero_key one_signature (codes "git") >>= decode_ssh_sig)
    ≡ some (record {
      version = 1;
      public_key = zero_key;
      namespace = codes "git";
      hash_algorithm = hash_algorithm;
      signature = one_signature;
    })
decode-assemble_ssh_sig_example =
    decode-assemble_ssh_sig zero_key one_signature (codes "git") refl refl (omega arith)
