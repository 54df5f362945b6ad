-- ===== src/Frontend/Credits.antt =====
-- hooks/useCredits.ts: the balance of an address, from the stream of events or, where that fails, from
-- one request. Amounts are texts. `JSON.parse` of an event and the request's answer are arguments.
pub mod Life
use blindference.Prelude.{
  String, Bool, true, false, if◌then◌else◌, Option, none, some, Result, ok, err, or_text, truthy,
}

pub record Balance : Type 0 where
  pub cusdc : String
  pub blind : String
  pub loading : Bool
  pub error : Option String

abbrev pub initial : Balance
initial = record { cusdc = "0"; blind = "0"; loading = false; error = none }

-- The two fields that are read of an answer or an event.
pub record Amounts : Type 0 where
  pub balance_cusdc : Option String
  pub balance_blind : Option String

abbrev pub balance_of : Amounts → Balance
balance_of amounts = record {
  cusdc = or_text amounts.balance_cusdc "0";
  blind = or_text amounts.balance_blind "0";
  loading = false;
  error = none;
}

-- `fetchBalance` up to its request, and whether it is made.
unfoldable pub begin_fetch : Option String → Balance → Bool × Balance
begin_fetch address balance =
    if truthy address
    then (true, record balance { loading = true; error = none })
    else (false, balance)

unfoldable pub end_fetch : Result Amounts → Balance → Balance
end_fetch (ok amounts) balance = balance_of amounts
end_fetch (err e) balance = record balance { loading = false; error = some e }

-- `onmessage`; an event that does not parse is ignored.
unfoldable pub on_message : Option Amounts → Balance → Balance
on_message none balance = balance
on_message (some amounts) balance = balance_of amounts
