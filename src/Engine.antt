-- ===== src/Engine.antt =====
-- src/include/engine.h: `TicketSystemEngine`, its state. A handler takes the engine and a command,
-- and returns the engine and the response, or the exception that it throws.
use bh_ticket_system.Base.{ℕ, Bool, Bytes, codes, Result, ok}
use bh_ticket_system.Base.Map.{Map}
use bh_ticket_system.Data.{FullUserData, StationNameData, TicketPriceData, CoreTrainData, SeatsData}
use bh_ticket_system.StopRegister.{Stops}
use bh_ticket_system.Transactions.{TransactionManager}
use bh_ticket_system.Args.{Command, respond}

pub record Engine : Type 0 where
  pub its_time_to_exit : Bool
  pub online_users : Map ℕ ℕ
  pub user_data : Map ℕ FullUserData
  pub station_name_data_storage : Map ℕ StationNameData
  pub ticket_price_data_storage : Map ℕ TicketPriceData
  pub core_train_data_storage : Map ℕ CoreTrainData
  pub seats_data_storage : Map (ℕ × ℕ) SeatsData
  pub stop_register : Stops
  pub transaction_manager : TransactionManager

abbrev pub Handler : Type 0
Handler = Engine → Command → Result (Engine × Bytes)

-- A handler's last lines, with the state that it leaves and the rest of the response's first line.
abbrev pub answer : Engine → Command → Bytes → Result (Engine × Bytes)
answer s command body = ok (s, respond command body)

-- The responses `-1` and `0`.
abbrev pub refuse : Engine → Command → Result (Engine × Bytes)
refuse s command = answer s command (codes "-1")

abbrev pub accept : Engine → Command → Result (Engine × Bytes)
accept s command = answer s command (codes "0")
