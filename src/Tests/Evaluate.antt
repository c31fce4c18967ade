-- ===== src/Tests/Evaluate.antt =====
-- One name under which a test computes with every operation of the model.
unfoldable pub everything : Unit {0}
unfolding volcano_db.Base.Int.◌+ℤ◌ volcano_db.Base.Int.◌-ℤ◌ volcano_db.Base.Int.◌*ℤ◌
    volcano_db.Base.Int.div_trunc volcano_db.Base.Int.compare_ℤ volcano_db.Base.Int.eq_ℤ
    volcano_db.Base.Int.wrap_i64 volcano_db.Base.Int.as_usize volcano_db.Catalog.position
    volcano_db.Catalog.find_col_idx volcano_db.Catalog.add_table volcano_db.Catalog.get_schema
    volcano_db.Client.ends_with volcano_db.Client.trim_end_matches volcano_db.Client.exchange
    volcano_db.Client.read_line volcano_db.Client.run volcano_db.Client.Conversation.read_frames
    volcano_db.Executor.Agg.new_state volcano_db.Executor.Agg.add_to_sum
    volcano_db.Executor.Agg.min_of volcano_db.Executor.Agg.max_of volcano_db.Executor.Agg.absorb
    volcano_db.Executor.Agg.update volcano_db.Executor.Agg.average volcano_db.Executor.Agg.finalize
    volcano_db.Executor.Agg.key_part volcano_db.Executor.Agg.make_group_key
    volcano_db.Executor.Agg.new_states volcano_db.Executor.Agg.eval_all
    volcano_db.Executor.Agg.eval_arg volcano_db.Executor.Agg.update_states
    volcano_db.Executor.Agg.agg_row volcano_db.Executor.Agg.agg_finish
    volcano_db.Executor.Build.build_executor volcano_db.Executor.Defs.dummy_next
    volcano_db.Executor.Defs.scan_from volcano_db.Executor.Defs.scan_next
    volcano_db.Executor.Defs.project_row volcano_db.Executor.Defs.limit_take
    volcano_db.Executor.Defs.filter_test volcano_db.Executor.Defs.filter_next
    volcano_db.Executor.Defs.project_next volcano_db.Executor.Defs.limit_skip
    volcano_db.Executor.Defs.limit_next volcano_db.Executor.Defs.join_advance
    volcano_db.Executor.Defs.join_test volcano_db.Executor.Defs.join_next
    volcano_db.Executor.Defs.sort_next volcano_db.Executor.Defs.group_row
    volcano_db.Executor.Defs.agg_next volcano_db.Executor.Defs.next_step
    volcano_db.Executor.Defs.next volcano_db.Executor.Defs.while_round
    volcano_db.Executor.Defs.while_next volcano_db.Executor.Flow.meaning
    volcano_db.Executor.Init.init volcano_db.Executor.Init.close
    volcano_db.Executor.Order.compare_on volcano_db.Executor.Order.compare_rows
    volcano_db.Executor.Order.insert_sorted volcano_db.Executor.Order.sort_by
    volcano_db.Executor.Refinement.run volcano_db.Handler.Defs.run_query
    volcano_db.Handler.Defs.handle_create volcano_db.Handler.Defs.insert_into
    volcano_db.Handler.Defs.handle_insert volcano_db.Handler.Defs.handle_query
    volcano_db.Handler.Defs.handle_sql volcano_db.Handler.Defs.handle_begin
    volcano_db.Handler.Defs.handle_commit volcano_db.Handler.Defs.handle_rollback
    volcano_db.Handler.Defs.inner_handle volcano_db.Handler.Defs.handle_statement
    volcano_db.Handler.Rows.undo_insert volcano_db.Handler.Rows.undo_all
    volcano_db.Handler.Rows.eval_row volcano_db.Handler.Rows.insert_row
    volcano_db.Handler.Rows.insert_rows volcano_db.HashMap.get volcano_db.HashMap.insert
    volcano_db.HashMap.remove volcano_db.Main.main volcano_db.Planner.BindExpr.bind_operator
    volcano_db.Planner.BindExpr.bind_type volcano_db.Planner.BindExpr.bind_columns
    volcano_db.Planner.BindExpr.bind_number volcano_db.Planner.BindExpr.bind_value
    volcano_db.Planner.BindExpr.map_all volcano_db.Planner.BindExpr.map_rows
    volcano_db.Planner.BindExpr.bind_table_factor volcano_db.Planner.BindExpr.has_agg_funcs
    volcano_db.Planner.BindExpr.add_aggregate volcano_db.Planner.BindExpr.extract_aggregates
    volcano_db.Planner.BindExpr.extract_all volcano_db.Planner.BindQuery.bind_condition
    volcano_db.Planner.BindQuery.bind_joins volcano_db.Planner.BindQuery.bind_from
    volcano_db.Planner.BindQuery.bind_where volcano_db.Planner.BindQuery.bind_item
    volcano_db.Planner.BindQuery.bind_targets volcano_db.Planner.BindQuery.bind_group_by
    volcano_db.Planner.BindQuery.bind_projection volcano_db.Planner.BindQuery.bind_order
    volcano_db.Planner.BindQuery.bind_order_by volcano_db.Planner.BindQuery.bind_count
    volcano_db.Planner.BindQuery.bind_select volcano_db.Planner.BindQuery.bind_query
    volcano_db.Planner.BindQuery.bind_tree volcano_db.Planner.BindQuery.bind_statement
    volcano_db.Planner.Expr.get_expr_name volcano_db.Planner.Expr.div_int
    volcano_db.Planner.Expr.eval_add volcano_db.Planner.Expr.eval_sub
    volcano_db.Planner.Expr.eval_mul volcano_db.Planner.Expr.eval_div
    volcano_db.Planner.Expr.eval_binary_op volcano_db.Planner.Expr.eval
    volcano_db.Planner.Expr.arithmetic_type volcano_db.Planner.Expr.operator_type
    volcano_db.Planner.Expr.sum_type volcano_db.Planner.Expr.get_expr_type
    volcano_db.Planner.Plan.qualify volcano_db.Planner.Plan.scan_schema
    volcano_db.Planner.Plan.project_columns volcano_db.Planner.Plan.group_columns
    volcano_db.Planner.Plan.agg_type volcano_db.Planner.Plan.agg_columns
    volcano_db.Planner.Plan.schema volcano_db.Protocol.Frames.to_be_bytes
    volcano_db.Protocol.Frames.write_frame volcano_db.Protocol.Frames.read_exact
    volcano_db.Protocol.Frames.read_payload volcano_db.Protocol.Frames.read_frame
    volcano_db.Protocol.Utf8.from_u32 volcano_db.Protocol.Utf8.encode_char
    volcano_db.Protocol.Utf8.as_bytes volcano_db.Protocol.Utf8.from_utf8
    volcano_db.Recovery.roll_forward volcano_db.Recovery.roll_all volcano_db.Recovery.kept
    volcano_db.Recovery.retain_all volcano_db.Recovery.recover_records
    volcano_db.Recovery.parse_lines volcano_db.Recovery.recover volcano_db.Server.connect
    volcano_db.Server.send volcano_db.Server.recovered volcano_db.Server.run_all
    volcano_db.Server.setup_demo_data volcano_db.Server.boot volcano_db.Server.answered
    volcano_db.Server.locked volcano_db.Server.round volcano_db.Server.serve
    volcano_db.Session.new_session volcano_db.Storage.is_truthy volcano_db.Storage.show_value
    volcano_db.Storage.eq_value volcano_db.Storage.eq_values volcano_db.Storage.eq_tuple
    volcano_db.Storage.cmp_value volcano_db.Text.contains_dot volcano_db.Text.base_name
    volcano_db.Text.show_i64 volcano_db.Text.parse_i64 volcano_db.Text.join
    volcano_db.Text.is_whitespace volcano_db.Text.trim volcano_db.Text.eq_ignore_ascii_case
    volcano_db.Tx.Manager.begin volcano_db.Tx.Manager.record_insert volcano_db.Tx.Manager.is_visible
    volcano_db.Tx.Manager.append_lines volcano_db.Tx.Manager.lgwr_flush volcano_db.Tx.Manager.commit
    volcano_db.Tx.Manager.rollback volcano_db.Planner.BindExpr.map_sql_expr
everything = tt
