-- ===== src/Controller/StartTests.antt =====
-- The start of a saga whose first commit takes place but reports an error.
