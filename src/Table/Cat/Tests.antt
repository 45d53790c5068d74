-- ===== src/Table/Cat/Tests.antt =====
-- src/table.c: the first section of a conditional access table, without the long syntax.
use tsanalyze.Base.{ℕ, Option, none, some, [], Bytes, Heap}
use tsanalyze.Table.Header.{zero_header}
use tsanalyze.Table.Cat.{CatState}

abbrev no_tables : CatState Bytes
no_tables = record {
  cat = none;
  previous = [];
  tsdt = record { header = zero_header; list = [] };
  ca_num = 0;
  cat_sections = 0;
  tsdt_sections = 0;
}

abbrev no_parser : ℕ → Bytes → ℕ → Option Bytes
no_parser tag ptr n = some []

abbrev no_heap : Heap
no_heap = record { next = 0; block = λ _. none }
