-- ===== src/Data.antt =====
-- src/include/data.h and the structs of src/include/stop_register.hpp and
-- src/include/transaction_mainenance.hpp: what is stored. A `char` array is the text in it, and an
-- array of numbers the elements that are in use. A number is kept in its range by what writes it.
use bh_ticket_system.Base.{ℕ, List, Bytes}

pub record FullUserData : Type 0 where
  pub username : Bytes
  pub password_hash : ℕ
  pub name : Bytes
  pub mail_addr : Bytes
  pub privilege : ℕ

pub record StationNameData : Type 0 where
  pub name : List Bytes

pub record TicketPriceData : Type 0 where
  pub train_id : Bytes
  pub price : List ℕ

pub record AdditionalTrainInfo : Type 0 where
  pub train_id : Bytes
  pub price : ℕ
  pub seats : ℕ

pub record CoreTrainData : Type 0 where
  pub train_id : Bytes
  pub station_num : ℕ
  pub stations_hash : List ℕ
  pub seat_num : ℕ
  pub start_time : ℕ
  pub sale_date_beg : ℕ
  pub sale_date_end : ℕ
  pub type : ℕ
  pub is_released : ℕ
  pub travel_time : List ℕ
  pub stopover_time : List ℕ

pub record SeatsData : Type 0 where
  pub seat : List ℕ
  pub max_seats : ℕ

-- `stop_register_t`
pub record StopKey : Type 0 where
  pub station_id_hash : ℕ
  pub train_id_hash : ℕ
  pub type : ℕ
  pub start_time : ℕ
  pub stop_id : ℕ

pub record MinimalTrainRecord : Type 0 where
  pub sale_date_beg : ℕ
  pub sale_date_end : ℕ
  pub vis_time_offset : ℕ

pub record DirectTrainInfo : Type 0 where
  pub train_id_hash : ℕ
  pub actual_start_date : ℕ
  pub leave_time_stamp : ℕ
  pub arrive_time_stamp : ℕ
  pub from_stop_id : ℕ
  pub to_stop_id : ℕ
  pub sale_date_beg : ℕ

pub record TransactionData : Type 0 where
  pub train_id : Bytes
  pub from_station_name : Bytes
  pub to_station_name : Bytes
  pub status : ℕ
  pub leave_time_stamp : ℕ
  pub arrive_time_stamp : ℕ
  pub num : ℕ
  pub total_price : ℕ
  pub running_date_offset : ℕ
  pub from_stop_id : ℕ
  pub to_stop_id : ℕ
