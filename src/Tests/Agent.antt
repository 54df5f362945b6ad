-- ===== src/Tests/Agent.antt =====
-- The agent SDK at concrete services: a network that counts the calls that it is asked for.
use blindference.Prelude.{
  ℕ, suc, ◌+◌, ◌⊎◌, ◌≡◌, refl, String, List, ◌∷◌, ◌++◌, none, ok, err, length, replicate, decimal,
  ◌<+>◌,
}
use blindference.Bytes.{Buffer}
use blindference.Async.Poll.Rounds.{Pending}
use blindference.Crypto.Toy.{zero_tag}
use blindference.Sdk.Encryption.{Payload}
use blindference.Sdk.Ipfs.{gateways_of, failure, download_from_ipfs}
use blindference.Sdk.Ipfs.Gateways.{Missed, asked, after, download_from_ipfs_cases}
use blindference.Sdk.Agent.Jobs.{poll_round, poll_job_status}
use blindference.Sdk.Agent.Polling.{poll_job_status_settles, poll_job_status_times_out}
use blindference.Tests.Network.{text, running, completed, services, slow}

download_from_ipfs_cases_example :
    let fetch = (services completed).fetch in
    let gateways = gateways_of none none none in
    ((lines : List String) × (w' : ℕ) × Missed fetch "cid" gateways 0 lines w'
      × (download_from_ipfs fetch "cid" none none none 0
          ≡ (err (failure (length gateways) "cid" lines), w')))
    ⊎ ((before : List String) × (g : String) × (later lines : List String) × (w' : ℕ)
        × (body : Buffer) × (gateways ≡ before ++ g ∷ later)
        × Missed fetch "cid" before 0 lines w'
        × (asked fetch "cid" g w' ≡ ok body)
        × (download_from_ipfs fetch "cid" none none none 0 ≡ (ok body, after fetch "cid" g w')))
download_from_ipfs_cases_example =
    download_from_ipfs_cases (services completed).fetch "cid" none none none 0

abbrev key : Buffer
key = replicate 32 1

abbrev payload : Payload
payload = record { iv = replicate 12 0; auth_tag = zero_tag; ciphertext = text }

round_runs : poll_round (services running) "job" 0 ≡ (ok running, 2)
unfolding poll_round
round_runs = refl

poll_job_status_times_out_example :
    poll_job_status (services running) "job" 1 0
    ≡ (err ("Polling timed out after " <+> decimal 1 <+> " attempts"), 2)
poll_job_status_times_out_example =
    poll_job_status_times_out (services running) "job" 1 0 2
      (Pending.once_more 0 0 2 2 running round_runs refl (Pending.at_once 2))

slow_runs :
    (poll_round slow "job" 0 ≡ (ok running, 2)) × (poll_round slow "job" 2 ≡ (ok completed, 4))
unfolding poll_round
slow_runs = (refl, refl)

poll_job_status_settles_example : poll_job_status slow "job" (1 + suc 58) 0 ≡ (ok completed, 4)
poll_job_status_settles_example =
    poll_job_status_settles slow "job" 1 58 completed 0 2 4
      (Pending.once_more 0 0 2 2 running slow_runs.0 refl (Pending.at_once 2)) slow_runs.1 refl
